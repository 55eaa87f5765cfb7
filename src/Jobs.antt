-- ===== src/Jobs.antt =====
-- repositories/jobs.py: the durable jobs table.
mod Tables
mod Insert
mod Transition
mod Claim
mod Queries
pub mod Pages
unfoldable pub use Tables.*
unfoldable pub use Insert.*
unfoldable pub use Transition.*
unfoldable pub use Claim.*
unfoldable pub use Queries.*
