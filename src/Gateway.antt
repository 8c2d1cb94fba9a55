-- ===== src/Gateway.antt =====
-- apps/gateway: what the gateway does with a request before and while it passes it on.
pub mod RateLimit
pub mod Dlq
pub mod Access
pub mod Config
pub mod Breakers
pub mod Proxy
pub mod CdnCache
pub mod Logging
