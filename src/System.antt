-- ===== src/System.antt =====
-- The running crawler as the interleaving of frontier calls: the workers of
-- internal/crawler/worker.go, the reconcilers of internal/scheduler/scheduler.go and the startup of
-- cmd/crawler/main.go each make one call of internal/storage/frontier.go at a time.
pub mod Defs
pub mod Invariant
pub mod Jobs
pub mod Surviving
pub mod Counting
pub mod Resolving
pub mod Bag
pub mod Changes
pub mod Refining
pub mod Queueing
pub mod Requeueing
pub mod Recovery
pub mod Serving
pub mod Keeping
pub mod Queued
pub mod Blocking
pub mod Readmission
pub mod Interference
pub mod Workers
pub mod Turns
pub mod Admitting
pub mod Explaining
pub mod Ending
pub mod Outcomes
pub mod Endings
pub mod Looping
pub mod Halting
pub mod Crowding
pub mod Reaping
pub mod Promoting
pub mod Scheduling
pub mod Sweeping
pub mod Reconcilers
pub mod Filling
pub mod Starting
pub mod Known
pub mod Trial
pub mod Once
pub mod Leasing
mod Scenario
mod Tests
mod Turning
mod Restarting
mod Running
mod Resuming
