-- ===== src/Latex.antt =====
-- The LaTeX lexer and its macro tables, in libpanduck/src.
pub mod Token
pub mod Verbatim
pub mod Macros
pub mod Math
pub mod Tokenizer
