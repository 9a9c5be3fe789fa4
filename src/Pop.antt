-- ===== src/Pop.antt =====
-- src/pop: proof of possession.
pub mod Store
pub mod Window
mod Tests
