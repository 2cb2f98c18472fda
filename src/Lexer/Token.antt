-- ===== src/Lexer/Token.antt =====
-- lexer.inl and lexer.h, `Token`, and `Range` of util/numeric.inl.
use rox.Prelude.{ℕ, ◌+◌, Bool, true, false}

-- `Token::Kind`.
pub data Kind : Type 0 where
  end at comma colon semi lparen rparen lbracket rbracket lbrace rbrace : Kind
  plus minus star fslash percent bang dollar question : Kind
  bor lor band land dot sequence ellipsis : Kind
  eq eqeq neq lt min lte lshift gt max gte rshift arrow : Kind
  ident pluseq minuseq stareq fslasheq : Kind
  kw_true kw_false kw_fn kw_if kw_as kw_of kw_is kw_let kw_new kw_for kw_else kw_type : Kind
  kw_defer kw_break kw_using kw_return kw_effect kw_module kw_import kw_continue : Kind
  lit_int lit_flt lit_str lit_chr comment unknown : Kind

-- `Range` of util/numeric.inl. Offsets are below 2^64 and never wrap in a file that fits memory.
pub record Range : Type 0 where
  pub offset : ℕ
  pub length : ℕ

abbrev pub beg : Range → ℕ
beg r = r.offset

abbrev pub fin : Range → ℕ
fin r = r.offset + r.length

pub record Token : Type 0 where
  pub kind : Kind
  pub range : Range

abbrev pub token : Kind → ℕ → ℕ → Token
token k n l = record { kind = k; range = record { offset = n; length = l } }

-- `Token::eof`.
unfoldable pub is_end : Kind → Bool
is_end end = true
is_end _ = false

-- `kind == Kind::COMMENT`.
unfoldable pub is_comment : Kind → Bool
is_comment comment = true
is_comment _ = false

-- The value of the enumeration, its place in lexer.inl.
unfoldable pub code : Kind → ℕ
code end = 0
code at = 1
code comma = 2
code colon = 3
code semi = 4
code lparen = 5
code rparen = 6
code lbracket = 7
code rbracket = 8
code lbrace = 9
code rbrace = 10
code plus = 11
code minus = 12
code star = 13
code fslash = 14
code percent = 15
code bang = 16
code dollar = 17
code question = 18
code bor = 19
code lor = 20
code band = 21
code land = 22
code dot = 23
code sequence = 24
code ellipsis = 25
code eq = 26
code eqeq = 27
code neq = 28
code lt = 29
code min = 30
code lte = 31
code lshift = 32
code gt = 33
code max = 34
code gte = 35
code rshift = 36
code arrow = 37
code ident = 38
code pluseq = 39
code minuseq = 40
code stareq = 41
code fslasheq = 42
code kw_true = 43
code kw_false = 44
code kw_fn = 45
code kw_if = 46
code kw_as = 47
code kw_of = 48
code kw_is = 49
code kw_let = 50
code kw_new = 51
code kw_for = 52
code kw_else = 53
code kw_type = 54
code kw_defer = 55
code kw_break = 56
code kw_using = 57
code kw_return = 58
code kw_effect = 59
code kw_module = 60
code kw_import = 61
code kw_continue = 62
code lit_int = 63
code lit_flt = 64
code lit_str = 65
code lit_chr = 66
code comment = 67
code unknown = 68
