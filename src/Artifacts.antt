-- ===== src/Artifacts.antt =====
-- The content-addressed store of artifacts: packages/runtime/src/artifact-store.ts.
pub mod Names
pub mod Store
pub mod Integrity
pub mod Writing
pub mod Sparing
pub mod Marker
