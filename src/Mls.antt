-- ===== src/Mls.antt =====
-- svalin_pki/src/mls: the groups in which devices and users send encrypted messages.
pub mod GroupId
pub mod OpenMls
pub mod Call
pub mod KeyPackage
pub mod Harness
pub mod Transport
pub mod Unpack
pub mod PublicProcessor
pub mod Server
pub mod Processor
pub mod Creation
pub mod Agent
pub mod Client
