-- ===== src/Guards.antt =====
-- What the guards of single commands let through.
pub mod Evidence
pub mod Versions
