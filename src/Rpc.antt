-- ===== src/Rpc.antt =====
-- svalin_rpc: the transport's chunks, the permissions of a peer and the dispatch of a session.
pub mod Chunk
pub mod Permission
pub mod Handler
pub mod Dispatch
