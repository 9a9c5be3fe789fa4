-- ===== src/Cache.antt =====
-- The in-process caches: of parsed ACL documents (acl_cache.rs).
pub mod Acl
mod Tests
