-- ===== src/Parser.antt =====
-- internal/parser: from raw to normalized events.
pub mod EventId
pub mod Evm
pub mod Sol
pub mod Tron
