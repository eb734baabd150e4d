-- ===== src/Http.antt =====
-- lib/http.rs: what a request gets, by its header `Accept`.
pub mod Str
pub mod Defs
mod Split
pub mod Ranges
pub mod Accept
pub mod Examples
