-- ===== src/Lexer.antt =====
-- lexer.h, lexer.inl and lexer.cpp. `Scan` and `Number` read one token off the bytes ahead, `Read`
-- has the lexer's state, `read` and `next`.
pub mod Token
pub mod Char
pub mod Scan
pub mod Number
pub mod Read
pub mod Bounds
pub mod Next
pub mod Spelling
pub mod Literals
pub mod Comments
pub mod Integers
