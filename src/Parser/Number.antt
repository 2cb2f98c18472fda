-- ===== src/Parser/Number.antt =====
-- parser.cpp: integer, character, floating-point, string and Boolean literals.
use rox.Prelude.{
  ℕ, ◌+◌, ◌-◌, Bool, true, false, [], ◌∷◌, ◌||◌, ◌&&◌, Option, none, some, not, ◌==◌, if◌then◌else◌,
  ltb, take, drop, get_or, codes,
}
use rox.Ast.{Expr, IntKind, FltKind}
use rox.Lexer.Char.{Bytes}
use rox.Lexer.Token.{lit_int, lit_flt, lit_str, lit_chr, kw_true, kw_false, Range}
use rox.Parser.State.{Lexed, M, ok, err, ◌>>=◌, pure, fail, is, peek, next, expect}
use rox.Parser.Calls.{Libc}

-- The loop that filters the separators: the text without them, or the place of one that ends the
-- digits.
pub data Filtered : Type 0 where
  clean : Bytes → Filtered
  trailing : ℕ → Filtered

abbrev put : ℕ → Filtered → Filtered
put c (clean cs) = clean (c ∷ cs)
put c (trailing i) = trailing i

unfoldable pub filter_marks : ℕ → Bytes → Filtered
filter_marks i [] = clean []
filter_marks i (c ∷ cs) =
    let rest = filter_marks (i + 1) cs in
    if not (c == b'\'') then put c rest else if get_or cs 0 b'_' == b'_' then trailing i else rest

-- `lit.starts_with(prefix)`, and `strncmp(end, prefix, length) == 0`.
unfoldable pub starts_with : Bytes → Bytes → Bool
starts_with bs [] = true
starts_with [] (p ∷ ps) = false
starts_with (c ∷ bs) (p ∷ ps) = (c == p) && starts_with bs ps

-- `TABLE`, with the names that the error message shows.
unfoldable pub suffix_kind : Bytes → Option (IntKind × ℕ)
suffix_kind s =
    if starts_with s (codes "_u8")
    then some (IntKind.u8, 0xff)
    else if starts_with s (codes "_u16")
    then some (IntKind.u16, 0xffff)
    else if starts_with s (codes "_u32")
    then some (IntKind.u32, 0xffff_ffff)
    else if starts_with s (codes "_u64")
    then some (IntKind.u64, 0xffff_ffff_ffff_ffff)
    else if starts_with s (codes "_s8")
    then some (IntKind.s8, 0x7f)
    else if starts_with s (codes "_s16")
    then some (IntKind.s16, 0x7fff)
    else if starts_with s (codes "_s32")
    then some (IntKind.s32, 0x7fff_ffff)
    else if starts_with s (codes "_s64")
    then some (IntKind.s64, 0x7fff_ffff_ffff_ffff)
    else none

abbrev pub base : Bytes → ℕ
base lit =
    if starts_with lit (codes "0x") then 16 else if starts_with lit (codes "0b") then 2 else 10

abbrev pub skip_to : Range → ℕ → Range
skip_to r i = record { offset = r.offset + i; length = r.length - i }

-- The part behind the call of `strtoull`; nothing resets `errno`.
unfoldable pub int_value : Range → ℕ → Bytes → M Expr
int_value r n rest s = elim (suffix_kind rest) [
  | none ↦ ok (Expr.int_expr r IntKind.untyped n) s
  | some (k, limit) ↦
      if s.errno || ltb limit n
      then err s.this "Integer literal '%S' too large"
      else ok (Expr.int_expr r k n) s
]

unfoldable pub read_int : Libc → Lexed → Filtered → M Expr
read_int lc t (trailing i) s =
    err (skip_to t.range i) "Unexpected trailing digits separator in integer literal"
read_int lc t (clean buf) s =
    let (n, rest, range_error) = lc.strtoull buf (base t.text) in
    int_value t.range n rest (record s { errno = s.errno || range_error })

unfoldable pub parse_int_expr : Libc → M Expr
parse_int_expr lc = do
  t ← expect lit_int "Expected int literal"
  read_int lc t (filter_marks 0 t.text)

-- `strncmp(end, "_f64", 3)` compares three characters only.
unfoldable pub flt_kind : Bytes → FltKind
flt_kind rest =
    if starts_with rest (codes "_f6")
    then FltKind.f64
    else if starts_with rest (codes "_f3")
    then FltKind.f32
    else FltKind.untyped

-- The value is that of `strtod` on the text which the node keeps.
unfoldable pub read_flt : Libc → Lexed → Filtered → M Expr
read_flt lc t (trailing i) s =
    err (skip_to t.range i) "Unexpected trailing digits separator in floating-point literal"
read_flt lc t (clean buf) s = ok (Expr.flt_expr t.range (flt_kind (lc.strtod_end buf)) buf) s

unfoldable pub parse_flt_expr : Libc → M Expr
parse_flt_expr lc = do
  t ← expect lit_flt "Expected float literal"
  read_flt lc t (filter_marks 0 t.text)

-- The byte behind the opening quote. A literal that the data ends in has none: the source reads
-- behind the data, and the model gives 0.
unfoldable pub parse_chr_expr : M Expr
parse_chr_expr = do
  t ← expect lit_chr "Expected character literal"
  pure (Expr.int_expr t.range IntKind.u8 (get_or t.text 1 0))

-- The text between the quotes.
unfoldable pub parse_str_expr : M Expr
parse_str_expr = do
  t ← expect lit_str "Expected string literal"
  pure (Expr.str_expr t.range (take (t.range.length - 2) (drop 1 t.text)))

unfoldable pub parse_bool_expr : M Expr
parse_bool_expr = do
  t ← peek
  if is kw_true t || is kw_false t
      then (do t ← next; pure (Expr.bool_expr t.range (is kw_true t)))
      else fail "Expected 'true' or 'false'"
