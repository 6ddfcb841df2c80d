-- ===== src/Secrets.antt =====
-- Secrets of the environment: packages/runtime/src/secret-provider.ts.
pub mod Provider
pub mod Handles
pub mod Issued
