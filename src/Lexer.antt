-- ===== src/Lexer.antt =====
-- src/jml_lexer.c
pub mod Token
pub mod State
pub mod Identifier
pub mod Compare
pub mod Literal
pub mod Scan
pub mod Passes
pub mod Skip
pub mod Moves
pub mod Strings
pub mod Steps
pub mod Source
pub mod Words
pub mod Letters
pub mod Keywords
pub mod Tests
