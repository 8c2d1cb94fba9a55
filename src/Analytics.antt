-- ===== src/Analytics.antt =====
-- apps/analytics-service: the batches in which request events are taken in, the queries over them,
-- and their summary.
pub mod Summary
pub mod Ingestion
pub mod Search
pub mod Queries
