-- ===== src/Worker.antt =====
-- The worker side: services/worker_runtime.py, and the recovery of the local backend.
pub mod Runtime
pub mod Recovery
pub mod Image
pub mod Local
pub mod Video
