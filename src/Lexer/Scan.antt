-- ===== src/Lexer/Scan.antt =====
-- lexer.cpp, `Lexer::read` from the `switch` on: one token read off the front of the bytes ahead.
-- `start` is the token's offset and `steps` the number of calls of `fwd`, both counted from where
-- the switch starts (`n` in the source, except where the source passes a second `fwd()`).
use rox.Prelude.{
  ℕ, zero, suc, ◌+◌, Bool, not, ◌&&◌, ◌||◌, [], ◌∷◌, Option, none, some, get_or, take, drop, codes,
  equal, ◌==◌, if◌then◌else◌,
}
use rox.Lexer.Char.{Bytes, eof, is_alnum}
use rox.Lexer.Token.{
  Kind, at, comma, colon, semi, lparen, rparen, lbracket, rbracket, lbrace, rbrace, plus, minus,
  star, fslash, percent, bang, dollar, question, bor, lor, band, land, dot, sequence, ellipsis, eq,
  eqeq, neq, lt, min, lte, lshift, gt, max, gte, rshift, arrow, ident, pluseq, minuseq, stareq,
  fslasheq, kw_true, kw_false, kw_fn, kw_if, kw_as, kw_of, kw_is, kw_let, kw_new, kw_for, kw_else,
  kw_type, kw_defer, kw_break, kw_using, kw_return, kw_effect, kw_module, kw_import, kw_continue,
  comment,
}

pub record Scan : Type 0 where
  pub kind : Kind
  pub start : ℕ
  pub width : ℕ
  pub steps : ℕ

abbrev pub scanned : Kind → ℕ → ℕ → ℕ → Scan
scanned k n w f = record { kind = k; start = n; width = w; steps = f }

-- The value of `peek()` after i calls of `fwd`.
abbrev pub peek_at : ℕ → Bytes → ℕ
peek_at i bs = get_or bs i eof

-- `while (peek() != -1 && p(peek())) fwd();` steps this often.
unfoldable pub run_length : (ℕ → Bool) → Bytes → ℕ
run_length p [] = 0
run_length p (c ∷ cs) = if not (c == eof) && p c then suc (run_length p cs) else 0

-- The cases of one character.
unfoldable pub single : ℕ → Option Kind
single c =
    if c == b'@'
    then some at
    else if c == b','
    then some comma
    else if c == b';'
    then some semi
    else if c == b':'
    then some colon
    else if c == b'('
    then some lparen
    else if c == b')'
    then some rparen
    else if c == b'{'
    then some lbrace
    else if c == b'}'
    then some rbrace
    else if c == b'['
    then some lbracket
    else if c == b']'
    then some rbracket
    else if c == b'%'
    then some percent
    else if c == b'$'
    then some dollar
    else if c == b'?'
    then some question
    else none

-- The cases that look at the next character d, and e behind it.
unfoldable pub after_plus : ℕ → Scan
after_plus d = if d == b'=' then scanned pluseq 1 2 2 else scanned plus 0 1 1

unfoldable pub after_minus : ℕ → Scan
after_minus d =
    if d == b'>'
    then scanned arrow 1 2 2
    else if d == b'='
    then scanned minuseq 1 2 2
    else scanned minus 0 1 1

unfoldable pub after_star : ℕ → Scan
after_star d = if d == b'=' then scanned stareq 1 2 2 else scanned star 0 1 1

unfoldable pub after_bar : ℕ → Scan
after_bar d = if d == b'|' then scanned lor 0 2 2 else scanned bor 0 1 1

unfoldable pub after_amp : ℕ → Scan
after_amp d = if d == b'&' then scanned land 0 2 2 else scanned band 0 1 1

unfoldable pub after_dot : ℕ → ℕ → Scan
after_dot d e =
    if d == b'.'
    then (if e == b'.' then scanned ellipsis 0 3 3 else scanned sequence 0 2 2)
    else scanned dot 0 1 1

unfoldable pub after_bang : ℕ → Scan
after_bang d = if d == b'=' then scanned neq 0 3 2 else scanned bang 0 1 1

unfoldable pub after_eq : ℕ → Scan
after_eq d = if d == b'=' then scanned eqeq 0 2 2 else scanned eq 0 1 1

unfoldable pub after_less : ℕ → Scan
after_less d =
    if d == b'<'
    then scanned lshift 0 2 2
    else if d == b'='
    then scanned lte 0 2 2
    else if d == b'?'
    then scanned min 0 2 2
    else scanned lt 0 1 1

unfoldable pub after_greater : ℕ → Scan
after_greater d =
    if d == b'>'
    then scanned rshift 0 2 2
    else if d == b'='
    then scanned gte 0 2 2
    else if d == b'?'
    then scanned max 0 2 2
    else scanned gt 0 1 1

-- `none` for a character that starts none of them.
unfoldable pub operator : ℕ → ℕ → ℕ → Option Scan
operator c d e =
    if c == b'+'
    then some (after_plus d)
    else if c == b'-'
    then some (after_minus d)
    else if c == b'*'
    then some (after_star d)
    else if c == b'|'
    then some (after_bar d)
    else if c == b'&'
    then some (after_amp d)
    else if c == b'.'
    then some (after_dot d e)
    else if c == b'!'
    then some (after_bang d)
    else if c == b'='
    then some (after_eq d)
    else if c == b'<'
    then some (after_less d)
    else if c == b'>'
    then some (after_greater d)
    else none

-- Behind the opening quote: the steps up to the closing one, a backslash taking one more.
unfoldable pub string_length : Bytes → ℕ
string_length [] = 0
string_length (c ∷ []) = if c == eof || c == b'"' then 0 else if c == b'\\' then 2 else 1
string_length (c ∷ d ∷ cs) =
    let long = suc (suc (string_length cs)) in
    let short = suc (string_length (d ∷ cs)) in
    if c == eof || c == b'"' then 0 else if c == b'\\' then long else short

-- `for (int i = depth; i != 0 && peek() != -1; )`, behind an opening `/*`.
unfoldable pub block_length : ℕ → Bytes → ℕ
block_length zero bs = 0
block_length (suc i) [] = 0
block_length (suc i) (c ∷ []) = if c == eof then 0 else 1
block_length (suc i) (c ∷ d ∷ cs) =
    let open_ = suc (suc (block_length (suc (suc i)) cs)) in
    let close = suc (suc (block_length i cs)) in
    let rest = suc (block_length (suc i) (d ∷ cs)) in
    if c == eof
    then 0
    else if c == b'/'
    then (if d == b'*' then open_ else rest)
    else if c == b'*'
    then (if d == b'/' then close else rest)
    else rest

-- Behind the first `/`; the widths count that too.
unfoldable pub slash : Bytes → Scan
slash bs =
    let d = peek_at 0 bs in
    if d == b'/'
    then (let n = 2 + run_length (λ c. not (c == b'\n')) (drop 1 bs) in scanned comment 0 n n)
    else if d == b'*'
    then (let n = 2 + block_length 1 (drop 1 bs) in scanned comment 0 n n)
    else if d == b'='
    then scanned fslasheq 0 2 2
    else scanned fslash 0 1 1

unfoldable pub is_word : ℕ → Bool
is_word c = is_alnum c || c == b'_'

-- The keyword that an identifier's text spells, by its length as in the source.
unfoldable pub keyword : ℕ → Bytes → Kind
keyword l s =
    if l == 2
    then (if equal s (codes "fn")
        then kw_fn
        else if equal s (codes "if")
        then kw_if
        else if equal s (codes "as")
        then kw_as
        else if equal s (codes "of")
        then kw_of
        else if equal s (codes "is")
        then kw_is
        else ident)
    else if l == 3
    then (if equal s (codes "let")
        then kw_let
        else if equal s (codes "new")
        then kw_new
        else if equal s (codes "for")
        then kw_for
        else ident)
    else if l == 4
    then (if equal s (codes "else")
        then kw_else
        else if equal s (codes "type")
        then kw_type
        else if equal s (codes "true")
        then kw_true
        else ident)
    else if l == 5
    then (if equal s (codes "defer")
        then kw_defer
        else if equal s (codes "false")
        then kw_false
        else if equal s (codes "break")
        then kw_break
        else if equal s (codes "using")
        then kw_using
        else ident)
    else if l == 6
    then (if equal s (codes "return")
        then kw_return
        else if equal s (codes "effect")
        then kw_effect
        else if equal s (codes "module")
        then kw_module
        else if equal s (codes "import")
        then kw_import
        else ident)
    else if l == 8
    then (if equal s (codes "continue") then kw_continue else ident)
    else ident

-- An identifier or a keyword, with its first character.
unfoldable pub word : Bytes → Scan
word bs = let l = 1 + run_length is_word (drop 1 bs) in scanned (keyword l (take l bs)) 0 l l
