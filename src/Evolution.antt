-- ===== src/Evolution.antt =====
-- How the tables may change over time: relations between two states that every action respects.
pub mod Relates
pub mod Paths
pub mod Moves
pub mod Transitions
pub mod Locking
pub mod Updates
pub mod Primitives
pub mod Services
pub mod Free
pub mod Jobs
pub mod Log
pub mod Silence
pub mod OneTime
pub mod Once
pub mod Calls
pub mod VideoCalls
pub mod SameOutbox
pub mod VideoEnds
pub mod FollowUps
pub mod Deliveries
pub mod Admissions
pub mod Attempts
pub mod Outbox
pub mod Dispatches
