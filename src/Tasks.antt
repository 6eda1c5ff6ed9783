-- ===== src/Tasks.antt =====
-- Feature tasks: the tables of internal/store/store.go, refresh.go, task_refs.go, task_sessions.go
-- and task_lark.go, and the operations on them.
pub mod Types
pub mod Rows
pub mod Docs
pub mod Prs
pub mod Links
pub mod Lark
pub mod Refinement
pub mod Archived
pub mod Upsert
