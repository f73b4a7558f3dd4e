-- ===== src/Source.antt =====
-- The package source: the lexer of PL/SQL sources (source/lex.go).
pub mod Item
pub mod Lex
mod Tests
