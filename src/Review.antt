-- ===== src/Review.antt =====
-- internal/review: the service that starts, finishes and recovers review runs.
pub mod Types
pub mod Remote
pub mod Paging
pub mod Ingest
