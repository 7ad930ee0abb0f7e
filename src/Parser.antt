-- ===== src/Parser.antt =====
-- src/parser.rs: classification of responses and the two parsers. The children hold the parsers'
-- loops and what is proved of them.
pub mod Classify
mod Match
pub mod Number
pub mod Network
pub mod Domain
pub mod Report
