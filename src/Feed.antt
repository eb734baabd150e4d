-- ===== src/Feed.antt =====
-- step12_ws_feed/code/src/main.rs: the store of trades.
pub mod Services
pub mod Defs
pub mod Consumer
pub mod Connections
pub mod Spec
pub mod Storing
pub mod Transactions
pub mod Loops
pub mod Atomicity
pub mod Unreliable
pub mod Slots
pub mod Rounds
pub mod Gaps
pub mod Following
pub mod GapReading
pub mod Creation
pub mod Routes
mod FailureExamples
pub mod Messages
pub mod Paging
pub mod Handling
mod Reading
mod Reconnecting
mod Redis
mod ConsumerExamples
mod Examples
