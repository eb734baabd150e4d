-- ===== src/Outline.antt =====
-- step04_pest/code/src/main.rs: the outline of a parsed text.
pub mod Defs
mod Lines
mod Reading
mod Examples
