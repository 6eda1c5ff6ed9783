-- ===== src/Pulls.antt =====
-- Pull requests: their checks and the bypass policy, internal/prs/policy.go, and their tables,
-- internal/store/pull_requests.go, and the service over both, internal/prs/service.go.
pub mod Types
pub mod Policy
pub mod Table
pub mod Snapshot
pub mod Track
pub mod Service
