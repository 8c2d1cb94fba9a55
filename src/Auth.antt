-- ===== src/Auth.antt =====
-- apps/auth-service: accounts, sessions, API keys, the guards and the routes.
pub mod Users
pub mod Sessions
pub mod ApiKeys
pub mod Guards
pub mod Routes
