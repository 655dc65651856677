-- ===== src/Frontier/Pending.antt =====
-- Listing URLs: a live job and the PENDING score of internal/storage/frontier.go go together.
pub mod Defs
pub mod Parts
pub mod Dead
pub mod Inv
pub mod Leases
pub mod Admit
pub mod Calls
pub mod Promote
pub mod Reclaim
pub mod Schedule
