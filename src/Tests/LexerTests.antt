-- ===== src/Tests/LexerTests.antt =====
use rox.Prelude.{◌≡◌, refl, some, [], ◌∷◌, List, codes}
use rox.Lexer.Token.{Kind, kw_let, ident, eq, lit_int, semi, neq, lit_str, lit_flt}
use rox.Lexer.Char.{Bytes}
use rox.Lexer.Read.{lex}

abbrev source : Bytes
source = codes "let a_1 = 0xf'f_u8; /* /* */ */ \"a\\\"\" != 1.5e-3_f32"

abbrev source_tokens : List (Kind × Bytes)
source_tokens =
    (kw_let, codes "let")
    ∷ (ident, codes "a_1")
    ∷ (eq, codes "=")
    ∷ (lit_int, codes "0xf'f_u8")
    ∷ (semi, codes ";")
    ∷ (lit_str, codes "\"a\\\"\"")
    ∷ (neq, codes "!= ")
    ∷ (lit_flt, codes "1.5e-3_f32")
    ∷ []

lex-source : lex source ≡ some source_tokens
unfolding lex
lex-source = refl
