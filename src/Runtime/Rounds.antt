-- ===== src/Runtime/Rounds.antt =====
-- One round of the loop of `execute_pending_operations_inner`, under the invariant.
mod Take
mod Step
pub use Take.*
pub use Step.*
