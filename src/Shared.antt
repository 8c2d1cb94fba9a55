-- ===== src/Shared.antt =====
-- packages/shared: the helpers that the services share.
pub mod Parts
