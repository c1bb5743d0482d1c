-- ===== src/Query.antt =====
-- crates/wyrd-spec/src/query: metadata queries.
pub mod Syntax
pub mod Bytes
pub mod Lexer
pub mod Tokens
pub mod Predicates
pub mod Parser
pub mod Validate
pub mod Spends
pub mod Fields
pub mod Progress
pub mod Layers
pub mod Spans
pub mod Positions
pub mod Parses
pub mod Literals
mod Tests
