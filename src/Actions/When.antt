-- ===== src/Actions/When.antt =====
-- When-clauses (web/src/actions/when.ts): tokens, values, and the parser that evaluates as it reads.
pub mod Values
pub mod Parser
pub mod Grammar
pub mod Tokens
pub mod Lexemes
pub mod Reading
