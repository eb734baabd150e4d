-- ===== src/Sums.antt =====
-- step07_redb/code/src/main.rs: the store of checked sums.
pub mod Defs
pub mod Journal
pub mod Handler
pub mod Transactions
pub mod Atomicity
pub mod Unreliable
pub mod Losses
mod FailureExamples
mod Halves
mod Interleaved
mod InterleavedExamples
pub mod Requests
mod Pages
mod Tables
mod Examples
mod QueueExamples
