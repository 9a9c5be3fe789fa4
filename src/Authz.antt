-- ===== src/Authz.antt =====
-- src/authz: Web Access Control.
pub mod Mode
pub mod Acl
pub mod Paths
pub mod Reader
pub mod Wac
pub mod WacAllow
mod Tests
