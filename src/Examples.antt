-- ===== src/Examples.antt =====
-- The theorems on concrete rows.
mod Rows
mod Approvals
mod Reviews
mod Reactions
mod Remote
mod Scheduler
mod Hub
mod Locks
mod Tasks
mod Pulls
mod Chats
mod Events
mod Monitor
