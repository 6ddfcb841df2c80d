-- ===== src/Evolve.antt =====
-- `evolve` of packages/kernel/src/model.ts over the maps of the execution kernel. An event that
-- the code refuses by `throw` has the answer `none`.
mod Runs
mod Attempts
mod Jobs
mod Outbox
mod Verifications
mod Apply
unfoldable pub use Runs.*
unfoldable pub use Attempts.*
unfoldable pub use Jobs.*
unfoldable pub use Outbox.*
unfoldable pub use Verifications.*
unfoldable pub use Apply.*
