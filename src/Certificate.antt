-- ===== src/Certificate.antt =====
-- svalin_pki/src/certificate.rs
pub mod Kind
pub mod Defs
pub mod Laws
pub mod Hex
pub mod Parse
