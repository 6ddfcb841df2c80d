-- ===== src/Model.antt =====
-- packages/kernel/src/model.ts and schema.ts: the state that the events of the execution kernel
-- build. Instants are numbers of milliseconds: the code writes each by `toISOString`, whose
-- fixed-width texts are ordered as the instants are.
mod Status
mod State
mod Events
unfoldable pub use Status.*
unfoldable pub use State.*
unfoldable pub use Events.*
