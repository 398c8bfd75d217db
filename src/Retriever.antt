-- ===== src/Retriever.antt =====
-- svalin/src: where the required members of a group and the key packages come from.
pub mod Local
pub mod Remote
pub mod Agreement
pub mod MetaGroup
pub mod Packages
