-- ===== src/Tests.antt =====
-- Concrete media, and each theorem with hypotheses at a concrete input.
pub mod Ram
pub mod Sources
pub mod Discs
pub mod Exports
pub mod Sockets
pub mod SecuritySectors
pub mod Policies
pub mod Hashes
pub mod Caches
pub mod Volumes
pub mod Drives
