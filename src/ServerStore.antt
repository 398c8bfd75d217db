-- ===== src/ServerStore.antt =====
-- svalin_store/src/server_store: the other stores of the server, and who reads them.
pub mod KeyPackages
pub mod Messages
pub mod Sessions
pub mod Subscriptions
pub mod Users
