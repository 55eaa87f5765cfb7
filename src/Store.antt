-- ===== src/Store.antt =====
-- The durable state: the tables of scripts/angemedia_gateway/db, and the effects on them.
-- `Schema` has the rows, `Effects` the actions: a transaction, an exception, a clock reading.
mod Vocabulary
mod Schema
mod Effects
pub mod Success
unfoldable pub use Vocabulary.*
pub use Schema.*
unfoldable pub use Effects.*
