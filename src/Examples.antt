-- ===== src/Examples.antt =====
-- A run with one job, seen through the commands and the database.
mod Setting
mod Requests
mod Leases
mod Endings
mod Guards
mod Successes
mod Workflows
mod Outbound
mod Artifacts
mod Secrets
