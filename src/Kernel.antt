-- ===== src/Kernel.antt =====
-- The execution kernel: the commands, the log that their events go to, and `execute` of
-- packages/kernel/src/sqlite-kernel.ts.
mod Commands
mod Payloads
mod Journal
mod Execute
unfoldable pub use Commands.*
unfoldable pub use Payloads.*
unfoldable pub use Journal.*
unfoldable pub use Execute.*
