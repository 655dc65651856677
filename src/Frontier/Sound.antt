-- ===== src/Frontier/Sound.antt =====
-- The job-instance state of the frontier: what stays true of ready, processing, lease and delayed.
pub mod Defs
pub mod Parts
pub mod Leases
pub mod Admit
pub mod Reconcile
