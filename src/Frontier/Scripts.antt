-- ===== src/Frontier/Scripts.antt =====
-- The Lua scripts of internal/storage/frontier.go, each run by Redis as one step. Arguments are
-- numbers and texts; identifiers stay below 10 ^ 14, where Lua still writes all their digits.
pub mod Admit
pub mod Complete
pub mod Reconcile
pub mod Rules
pub mod Branches
