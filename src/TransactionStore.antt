-- ===== src/TransactionStore.antt =====
-- svalin_store/src: the stores of trust store transactions, at agents and clients and at the server.
pub mod Table
pub mod Defs
pub mod Rows
pub mod Laws
pub mod Add
pub mod Server
pub mod Open
