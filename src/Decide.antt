-- ===== src/Decide.antt =====
-- `decide` of packages/kernel/src/domain.ts, for the commands of the execution kernel: each yields
-- the events to append, or a failure that appends none.
mod Answers
mod Leases
mod Reasons
mod Failures
mod Runs
mod Jobs
mod Attempts
mod Verifications
mod Outbox
mod Sources
unfoldable pub use Answers.*
unfoldable pub use Leases.*
unfoldable pub use Reasons.*
unfoldable pub use Failures.*
unfoldable pub use Runs.*
unfoldable pub use Jobs.*
unfoldable pub use Attempts.*
unfoldable pub use Verifications.*
unfoldable pub use Outbox.*
unfoldable pub use Sources.*
