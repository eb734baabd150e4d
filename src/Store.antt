-- ===== src/Store.antt =====
-- The redb database: its tables and its transactions.
pub mod Table
pub mod ListTable
pub mod Transaction
pub mod Atomic
pub mod AllOrNothing
pub mod FaultList
