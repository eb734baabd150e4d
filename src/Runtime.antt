-- ===== src/Runtime.antt =====
-- step11_ws_state_machine/code/src/main.rs: the runtime that interleaves the tasks.
pub mod BinaryHeap
pub mod Defs
pub mod Live
pub mod Rounds
pub mod Loop
pub mod Promises
pub mod Handlers
pub mod System
pub mod Arrivals
pub mod Serve
mod Scenarios
mod Examples
