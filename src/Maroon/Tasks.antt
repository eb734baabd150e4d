-- ===== src/Maroon/Tasks.antt =====
-- step11_ws_state_machine/code/src/main.rs: the kinds of tasks that the handlers schedule.
pub mod Delay
pub mod Divisors
pub mod Fibonacci
pub mod Factorial
