-- ===== src/Parser/Prec.antt =====
-- lexer.h, `Token::binary_prec_`, and the switch of `parse_binop_rhs` over the operators.
-- `binary_prec` is `16 - binary_prec_`, an `int` that is -1 for a token that is no operator; the
-- comparisons of the parser are written over `binary_prec_` instead.
use rox.Prelude.{ℕ, ◌+◌, Bool, ltb, ◌-◌}
use rox.Lexer.Token.{
  Kind, star, fslash, plus, minus, lshift, rshift, lt, lte, gt, gte, min, max, eqeq, neq, band, bor,
  land, lor, kw_of, kw_is, kw_as,
}

unfoldable pub binary_prec_ : Kind → ℕ
binary_prec_ kw_of = 4
binary_prec_ kw_is = 4
binary_prec_ kw_as = 4
binary_prec_ star = 5
binary_prec_ fslash = 5
binary_prec_ plus = 6
binary_prec_ minus = 6
binary_prec_ lshift = 7
binary_prec_ rshift = 7
binary_prec_ lt = 9
binary_prec_ lte = 9
binary_prec_ gt = 9
binary_prec_ gte = 9
binary_prec_ min = 9
binary_prec_ max = 9
binary_prec_ eqeq = 10
binary_prec_ neq = 10
binary_prec_ band = 11
binary_prec_ bor = 13
binary_prec_ land = 14
binary_prec_ lor = 15
binary_prec_ _ = 17

-- `binary_prec() < expr_prec`, for an `expr_prec` that is not negative.
abbrev pub prec_below : Kind → ℕ → Bool
prec_below k expr_prec = ltb 16 (expr_prec + binary_prec_ k)

-- `k.binary_prec() < l.binary_prec()`.
abbrev pub prec_lt : Kind → Kind → Bool
prec_lt k l = ltb (binary_prec_ l) (binary_prec_ k)

-- `binary_prec()` of an operator.
abbrev pub binary_prec : Kind → ℕ
binary_prec k = 16 - binary_prec_ k
