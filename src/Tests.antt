-- ===== src/Tests.antt =====
-- Concrete certificates, blocks and sessions, on which the definitions are run.
mod Fixtures
mod Pki
mod Certificates
mod Replicas
mod SyncFixtures
mod Sync
mod Devices
mod Stores
mod Calls
mod GroupFixtures
mod Groups
mod Retrievers
mod Signed
mod Messages
