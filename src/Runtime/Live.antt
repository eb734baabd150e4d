-- ===== src/Runtime/Live.antt =====
-- The invariant of the runtime: every active task has one pending operation, and the life of a
-- task that is run from that operation is known.
mod Defs
mod Splits
pub use Defs.*
pub use Splits.*
