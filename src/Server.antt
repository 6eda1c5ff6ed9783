-- ===== src/Server.antt =====
-- cmd/saturnus-server: the handlers of the HTTP interface and the scheduler, with the hub that it
-- reads (internal/worker).
pub mod Approvals
pub mod Hub
pub mod Scheduler
