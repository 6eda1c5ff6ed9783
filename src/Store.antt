-- ===== src/Store.antt =====
-- internal/store: the tables, the operations on them, and what they promise.
pub mod Types
pub mod Approvals
pub mod Reviews
pub mod Runs
pub mod Findings
pub mod Assign
pub mod Reactions
pub mod Contexts
pub mod Sessions
pub mod Workers
pub mod Threads
pub mod Comments
pub mod ChatModes
pub mod Sync
