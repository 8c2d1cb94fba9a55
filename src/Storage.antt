-- ===== src/Storage.antt =====
-- apps/storage-service: multipart uploads, buckets and files, and the routes in front of them.
pub mod Multipart
pub mod Files
pub mod Routes
