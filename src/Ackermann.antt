-- ===== src/Ackermann.antt =====
-- step11_ws_state_machine/code/src/main.rs: the Ackermann function.
pub mod Defs
pub mod Correct
mod Examples
