-- ===== src/Store.antt =====
-- src/store: what stands before the back ends of the store.
pub mod BodyCache
