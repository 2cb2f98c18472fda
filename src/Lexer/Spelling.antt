-- ===== src/Lexer/Spelling.antt =====
-- lexer.inl, the comments beside the kinds: each kind with a fixed spelling is read back.
use mathlib.Core.Path.{subst}
use mathlib.Core.Option
use rox.Prelude.{◌≡◌, refl, ◌∷◌, ◌++◌, Option, none, some, codes, length, equal}
use rox.Lexer.Char.{Bytes, is_space, is_alpha, is_digit, is_alnum}
use rox.Lexer.Token.{
  Kind, end, at, comma, colon, semi, lparen, rparen, lbracket, rbracket, lbrace, rbrace, plus,
  minus, star, fslash, percent, bang, dollar, question, bor, lor, band, land, dot, sequence,
  ellipsis, eq, eqeq, neq, lt, min, lte, lshift, gt, max, gte, rshift, arrow, ident, pluseq,
  minuseq, stareq, fslasheq, kw_true, kw_false, kw_fn, kw_if, kw_as, kw_of, kw_is, kw_let, kw_new,
  kw_for, kw_else, kw_type, kw_defer, kw_break, kw_using, kw_return, kw_effect, kw_module,
  kw_import, kw_continue, lit_int, lit_flt, lit_str, lit_chr, comment, unknown,
}
use rox.Lexer.Scan.{
  after_greater, after_eq, after_less, after_bang, after_less, after_dot, after_less, after_amp,
  after_less, after_bar, after_less, after_less, after_star, after_less, after_minus, after_less,
  after_plus, run_length, single, operator, slash, is_word, keyword, word,
}
use rox.Lexer.Read.{scan_long, scan, skip, read}

-- The spellings that lexer.inl lists.
abbrev pub spelling : Kind → Option Bytes
spelling at = some (codes "@")
spelling comma = some (codes ",")
spelling colon = some (codes ":")
spelling semi = some (codes ";")
spelling lparen = some (codes "(")
spelling rparen = some (codes ")")
spelling lbracket = some (codes "[")
spelling rbracket = some (codes "]")
spelling lbrace = some (codes "{")
spelling rbrace = some (codes "}")
spelling plus = some (codes "+")
spelling minus = some (codes "-")
spelling star = some (codes "*")
spelling fslash = some (codes "/")
spelling percent = some (codes "%")
spelling bang = some (codes "!")
spelling dollar = some (codes "$")
spelling question = some (codes "?")
spelling bor = some (codes "|")
spelling lor = some (codes "||")
spelling band = some (codes "&")
spelling land = some (codes "&&")
spelling dot = some (codes ".")
spelling sequence = some (codes "..")
spelling ellipsis = some (codes "...")
spelling eq = some (codes "=")
spelling eqeq = some (codes "==")
spelling neq = some (codes "!=")
spelling lt = some (codes "<")
spelling min = some (codes "<?")
spelling lte = some (codes "<=")
spelling lshift = some (codes "<<")
spelling gt = some (codes ">")
spelling max = some (codes ">?")
spelling gte = some (codes ">=")
spelling rshift = some (codes ">>")
spelling arrow = some (codes "->")
spelling pluseq = some (codes "+=")
spelling minuseq = some (codes "-=")
spelling stareq = some (codes "*=")
spelling fslasheq = some (codes "/=")
spelling kw_true = some (codes "true")
spelling kw_false = some (codes "false")
spelling kw_fn = some (codes "fn")
spelling kw_if = some (codes "if")
spelling kw_as = some (codes "as")
spelling kw_of = some (codes "of")
spelling kw_is = some (codes "is")
spelling kw_let = some (codes "let")
spelling kw_new = some (codes "new")
spelling kw_for = some (codes "for")
spelling kw_else = some (codes "else")
spelling kw_type = some (codes "type")
spelling kw_defer = some (codes "defer")
spelling kw_break = some (codes "break")
spelling kw_using = some (codes "using")
spelling kw_return = some (codes "return")
spelling kw_effect = some (codes "effect")
spelling kw_module = some (codes "module")
spelling kw_import = some (codes "import")
spelling kw_continue = some (codes "continue")
spelling _ = none

abbrev pub ReadsBack : Kind → Bytes → Bytes → Type 0
ReadsBack k rest s =
    let (t, l) = read (record { bytes = s ++ (b' ' ∷ rest); offset = 0 }) in
    (t.kind ≡ k) × (l.offset ≡ length s)

-- Read from the start of a text, with a space behind it, a spelling that lexer.inl gives for a
-- kind yields one token of that kind, and no more than the spelling is consumed.
pub read-spelling : (k : Kind) {s : Bytes} (rest : Bytes) → spelling k ≡ some s → ReadsBack k rest s
unfolding read skip scan scan_long single operator after_plus after_minus after_star after_bar
    after_amp after_dot after_bang after_eq after_less after_greater slash word keyword is_word
    run_length is_space is_alpha is_digit is_alnum equal
read-spelling at rest h = subst (ReadsBack at rest) (Option.some-injective _ _ h) (refl, refl)
read-spelling end rest h = cc
read-spelling ident rest h = cc
read-spelling lit_int rest h = cc
read-spelling lit_flt rest h = cc
read-spelling lit_str rest h = cc
read-spelling lit_chr rest h = cc
read-spelling comment rest h = cc
read-spelling unknown rest h = cc
read-spelling k rest h = subst (ReadsBack k rest) (Option.some-injective _ _ h) (refl, refl)
