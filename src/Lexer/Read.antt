-- ===== src/Lexer/Read.antt =====
-- lexer.h and lexer.cpp: the state of `Lexer`, `read`, `next`, and the tokens of a whole file.
use rox.Prelude.{
  equal, length, ℕ, zero, suc, ◌+◌, not, ◌||◌, List, [], ◌∷◌, Option, none, some, take, drop, ◌==◌,
  if◌then◌else◌,
}
use mathlib.Core.Option
use rox.Lexer.Char.{Bytes, eof, is_space, is_alpha, is_digit, is_bin, is_hex, is_alnum}
use rox.Lexer.Token.{Kind, end, lit_str, lit_chr, unknown, is_end, is_comment, Token, Range}
use rox.Lexer.Scan.{
  after_greater, after_less, after_eq, after_bang, after_dot, after_amp, after_bar, after_star,
  after_minus, after_plus, Scan, scanned, peek_at, run_length, single, operator, string_length,
  block_length, slash, is_word, keyword, word,
}
use rox.Lexer.Number.{radix_length, decimal, mantissa, exponent, suffix, number}

-- `m_data` and `m_offset`.
pub record Lexer : Type 0 where
  pub bytes : Bytes
  pub offset : ℕ

-- `m_data.slice(range.offset, range.length)`.
pub string : Lexer → Range → Bytes
string l r = take r.length (drop r.offset l.bytes)

-- The kinds that start with a letter, a digit, a quote or a slash, and the last line of `read`.
unfoldable pub scan_long : Bytes → Scan
scan_long bs =
    let c = peek_at 0 bs in
    if c == b'\''
    then (let n = 2 + run_length (λ d. not (d == b'\'')) (drop 1 bs) in scanned lit_chr 0 n n)
    else if c == b'"'
    then (let n = 2 + string_length (drop 1 bs) in scanned lit_str 0 n n)
    else if c == b'/'
    then slash (drop 1 bs)
    else if is_alpha c || c == b'_'
    then word bs
    else if is_digit c
    then number bs
    else scanned unknown 0 1 1

-- The `switch` of `read`.
unfoldable pub scan : Bytes → Scan
scan bs =
    let c = peek_at 0 bs in
    if c == eof then scanned end 0 0 1 else elim (single c) [
      | some k ↦ scanned k 0 1 1
      | none ↦ elim (operator c (peek_at 1 bs) (peek_at 2 bs)) [ some s ↦ s | none ↦ scan_long bs ]
    ]

-- The offset behind the white space ahead.
unfoldable pub skip : Lexer → ℕ
skip l = l.offset + run_length is_space (drop l.offset l.bytes)

unfoldable pub read : Lexer → Token × Lexer
read l =
    let n = skip l in
    let s = scan (drop n l.bytes) in
    (
      record { kind = s.kind; range = record { offset = n + s.start; length = s.width } },
      record l { offset = n + s.steps },
    )

-- `next`, with fuel for the comments that it passes over; `none` means that the fuel ran out.
unfoldable pub next : ℕ → Lexer → Option (Token × Lexer)
next zero l = none
next (suc fuel) l =
    let rest = next fuel (read l).1 in if is_comment (read l).0.kind then rest else some (read l)

-- What a client that calls `next` until `END` sees: the tokens with their texts.
unfoldable pub tokens : ℕ → Lexer → Option (List (Kind × Bytes))
tokens zero l = none
tokens (suc fuel) l = elim (next (suc fuel) l) [
  | none ↦ none
  | some (t, l') ↦
      let rest = Option.map (λ ts. (t.kind, string l t.range) ∷ ts) (tokens fuel l') in
      if is_end t.kind then some [] else rest
]

-- The tokens of a file, with enough fuel (`lex_total`).
unfoldable pub lex : Bytes → Option (List (Kind × Bytes))
unfolding tokens next is_comment is_end read string skip scan scan_long single operator after_plus
    after_minus after_star after_bar after_amp after_dot after_bang after_eq after_less
    after_greater run_length string_length block_length slash is_word keyword word radix_length
    decimal mantissa exponent suffix number is_space is_alpha is_digit is_bin is_hex is_alnum equal
lex bs = tokens (length bs + 1) (record { bytes = bs; offset = 0 })
