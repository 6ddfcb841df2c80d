-- ===== src/Outbound.antt =====
-- The authority for outbound effects: packages/kernel/src/outbound-authority.ts, with the contracts
-- of packages/contracts/src/index.ts that it stands on.
pub mod Actions
pub mod Data
pub mod Documents
pub mod Replay
pub mod Tables
pub mod Policies
pub mod Grants
pub mod Outcomes
pub mod Inspection
pub mod Rows
pub mod History
pub mod Plans
pub mod Effects
pub mod Reachable
pub mod Grant
pub mod Suspension
