-- ===== src/ClientStore.antt =====
-- svalin_store/src/client_store.rs and svalin_store/src/client_store/persistent.rs: what a client
-- knows of the devices, in memory and in its database.
pub mod Persistent
pub mod Defs
pub mod Rows
pub mod Laws
pub mod Late
