-- ===== src/SecureChain.antt =====
-- svalin_pki/src/secure_chain.rs
pub mod Interface
pub mod Block
pub mod Chain
pub mod Check
pub mod Package
pub mod History
