-- ===== src/BuildRelease.antt =====
-- tools/build_release.py: the gate before a release archive, and what the archive and its manifest hold.
pub mod Files
pub mod Digest
pub mod Status
pub mod Build
