-- ===== src/Sync.antt =====
-- svalin/src/shared/commands/update_trust_store.rs and its callers: how the server, the agents and
-- the clients keep their trust stores in step.
pub mod Defs
pub mod Follow
pub mod Party
pub mod CatchUp
pub mod Recover
pub mod Unheard
