-- ===== src/Tests/LexerWitnesses.antt =====
-- The lexer's theorems at concrete inputs.
use rox.Lexer.Token.{end}
use rox.Prelude.{arith, ◌+◌, ◌≡◌, refl, some, List, codes}
use rox.Lexer.Token.{Kind, fin, neq, comment, lit_str, lit_int}
use rox.Lexer.Char.{Bytes}
use rox.Lexer.Scan.{scanned, keyword}
use rox.Lexer.Read.{Lexer, read, scan, lex}
use rox.Prelude.{All, ◌≢◌, true}
use rox.Lexer.Scan.{is_word}
use rox.Lexer.Char.{is_alnum, is_alpha, is_digit, eof}
use rox.Lexer.Bounds.{overrun, uncovered, read-range_end}
use rox.Lexer.Next.{lex_total}
use rox.Lexer.Spelling.{ReadsBack, read-spelling}
use rox.Lexer.Comments.{stop, nested, plain, scan-block}
use rox.Lexer.Literals.{Quoted, scan-string, scan-word}
use rox.Lexer.Integers.{u8, scan-integer}

abbrev arrow_source : Lexer
arrow_source = record { bytes = codes " -> /* x */ Uint8"; offset = 0 }

read-range_end_example :
    (fin (read arrow_source).0.range + uncovered (read arrow_source).0.kind
      ≡ (read arrow_source).1.offset + overrun (read arrow_source).0.kind)
    × ((read arrow_source).0.kind ≡ end → (read arrow_source).0.range.length ≡ 0)
read-range_end_example = read-range_end arrow_source

lex_total_example : (ts : List (Kind × Bytes)) × (lex (codes "fn f() -> T {") ≡ some ts)
lex_total_example = lex_total (codes "fn f() -> T {")

read-spelling_example : ReadsBack neq (codes "x") (codes "!=")
read-spelling_example = read-spelling neq (codes "x") refl

scan-block_example : scan (codes "/*a/**/*/ b") ≡ scanned comment 0 9 9
scan-block_example =
    scan-block (codes " b")
      (plain b'a' ((λ e. omega arith), (λ e. omega arith), (λ e. omega arith)) (nested stop stop))

scan-string_example : scan (codes "\"a\\\"\" b") ≡ scanned lit_str 0 5 5
scan-string_example = scan-string (codes " b") (
    Quoted.plain b'a' (λ e. omega arith) (λ e. omega arith) (λ e. omega arith)
      (Quoted.escape b'"' Quoted.stop))

efer : All (λ d. (is_word d ≡ true) × (d ≢ eof)) (codes "efer")
unfolding is_word is_alnum is_alpha
efer = ground arith

scan-word_example : scan (codes "defer x") ≡ scanned (keyword 5 (codes "defer")) 0 5 5
unfolding is_word is_alnum is_alpha is_digit
scan-word_example = scan-word b'd' (codes "efer") (codes " x") refl efer refl

scan-integer_example : scan (codes "12'0_u8;") ≡ scanned lit_int 0 7 7
unfolding is_digit
scan-integer_example =
    scan-integer b'1' (codes "2'0") (codes ";") u8 refl (λ e. omega arith)
      (refl, (refl, (refl, tt))) tt
