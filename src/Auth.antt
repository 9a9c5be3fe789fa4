-- ===== src/Auth.antt =====
-- src/auth_cache.rs: authentication from the cache of verified tokens.
pub mod Proof
pub mod TokenCache
