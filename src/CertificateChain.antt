-- ===== src/CertificateChain.antt =====
-- svalin_pki/src/certificate_chain.rs
pub mod Builder
pub mod Verify
