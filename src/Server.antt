-- ===== src/Server.antt =====
-- The crate summ-server: the grammars of headers, paths and query strings.
pub mod Range
pub mod Reference
pub mod Query
mod Tests
