-- ===== src/Broadcast.antt =====
-- step10_websocket/code/src/main.rs: the time, sent to every websocket.
pub mod Defs
pub mod Order
mod Examples
