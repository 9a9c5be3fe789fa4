-- ===== src/Ldp/Patch.antt =====
-- src/ldp/patch.rs: PATCH with N3 Patch and with the data forms of SPARQL Update.
pub mod Terms
pub mod Solve
pub mod Apply
pub mod N3
pub mod Sparql
pub mod Request
mod Tests
