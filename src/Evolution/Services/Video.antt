-- ===== src/Evolution/Services/Video.antt =====
-- The video worker respects what the statements that it runs respect.
mod Stages
mod Ends
mod Handlers
pub use Stages.*
pub use Ends.*
pub use Handlers.*
