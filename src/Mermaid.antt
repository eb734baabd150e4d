-- ===== src/Mermaid.antt =====
-- step03_mermaid/code/src/main.rs: the generator of sequence diagrams.
pub mod Defs
mod Diagram
mod Live
mod Clients
mod Drawings
mod Examples
