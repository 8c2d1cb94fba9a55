-- ===== src/Dashboard.antt =====
-- apps/dashboard: the client of the gateway that the pages share, the live lists, and the storage page.
pub mod Client
pub mod Realtime
pub mod Storage
