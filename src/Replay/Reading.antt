-- ===== src/Replay/Reading.antt =====
-- Events that read back as they were stored, for every command whose texts do.
pub mod Events
pub mod Leases
pub mod Commands
