-- ===== src/Ldp.antt =====
-- src/ldp: requests of the Linked Data Platform, where they are pure.
pub mod Content
pub mod Range
pub mod Target
pub mod HttpDate
pub mod Conditional
pub mod Patch
mod Tests
