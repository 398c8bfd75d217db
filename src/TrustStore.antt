-- ===== src/TrustStore.antt =====
-- svalin_pki/src/trust_store.rs
pub mod State
pub mod Same
pub mod Laws
pub mod Store
pub mod Complete
pub mod Replica
