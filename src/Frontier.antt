-- ===== src/Frontier.antt =====
-- internal/storage/frontier.go: the durable work queue and its Lua scripts.
pub mod Types
pub mod Member
pub mod Parts
pub mod Keyspace
pub mod Scripts
pub mod Methods
pub mod Replies
pub mod Calls
pub mod Sound
pub mod Pending
pub mod Fencing
pub mod Behaviour
