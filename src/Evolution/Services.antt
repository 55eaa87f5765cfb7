-- ===== src/Evolution/Services.antt =====
-- The services, composed of the repositories' statements: what these respect, each service does.
mod Admission
mod Dispatch
mod Worker
mod Recovery
mod Image
mod Video
mod Local
pub use Admission.*
pub use Dispatch.*
pub use Worker.*
pub use Recovery.*
pub use Image.*
pub use Video.*
pub use Local.*
