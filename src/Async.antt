-- ===== src/Async.antt =====
-- step07_redb/code/src/db.rs: the queue of requests to the database.
pub mod Channel
pub mod ListChannel
pub mod Defs
pub mod Serial
pub mod Invariant
pub mod Serving
mod Downcast
pub mod Answers
mod Examples
