-- ===== src/Maroon.antt =====
-- step11_ws_state_machine/code/src/main.rs: the Maroon tasks, from their state machine to the
-- execution of one task on its own.
pub mod Types
pub mod Format
pub mod GlobalStep
pub mod TaskStep
pub mod Runs
pub mod Tasks
