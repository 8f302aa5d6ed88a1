-- ===== src/Worker.antt =====
-- internal/worker: the pool that takes events from Kafka, delivers them, and records the result.
pub mod Notifier
pub mod Pool
pub mod Dispatch
pub mod Conservation
pub mod Retry
pub mod Overflow
pub mod Backoff
pub mod Outcome
pub mod Order
pub mod Steps
pub mod Alone
pub mod System
pub mod Simulation
pub mod Writes
pub mod Tally
pub mod Commits
pub mod Trace
pub mod Returned
pub mod Settled
pub mod Overtaking
pub mod Redelivery
