-- ===== src/Runtime/BinaryHeap.antt =====
-- `std::collections::BinaryHeap`, as step11_ws_state_machine/code/src/main.rs uses it.
mod Defs
pub mod ListHeap
pub use Defs.*
