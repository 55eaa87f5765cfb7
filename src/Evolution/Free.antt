-- ===== src/Evolution/Free.antt =====
-- What a relation does not speak of, no statement on it can break.
mod Jobs
mod Events
mod Attempts
mod Dispatches
mod Media
pub use Jobs.*
pub use Events.*
pub use Attempts.*
pub use Dispatches.*
pub use Media.*
