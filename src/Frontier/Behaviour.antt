-- ===== src/Frontier/Behaviour.antt =====
-- What a method of the frontier does to a job that holds its lease, and when the frontier is idle.
pub mod Ladder
pub mod Failing
pub mod Quarantine
pub mod Revisit
pub mod Idle
