-- ===== src/Parser/EnoughAtoms.antt =====
-- The fuel that literals and names take: none.
use rox.Prelude.{Bool-cases, ◌||◌, ◌∙◌, ap, sym, ℕ, ◌≡◌, refl, true, false, arith}
use rox.Lexer.Char.{Bytes}
use rox.Lexer.Token.{Kind, Range, is_end}
use rox.Parser.State.{is, Parser, Lexed}
use rox.Parser.Calls.{Libc}
use rox.Parser.Ends.{
  is-live, Ends, Down, Drop, Ends-Drop, Ends-bind, Ends-branch, next-Drop, expect-Drop,
  peek-IsPeeked, IsPeeked,
}
use rox.Parser.Expr.{parse_var_expr, parse_selector_expr}
use rox.Parser.Number.{
  Filtered, int_value, parse_bool_expr, parse_chr_expr, parse_flt_expr, parse_int_expr,
  parse_str_expr, read_flt, read_int,
}
use rox.Parser.Number.{trailing, clean, Filtered}
use rox.Prelude.{inl, inr, Bool-cases}
use rox.Parser.Prec.{prec_below, binary_prec_}

int_value-Down :
    (r : Range) (n : ℕ) (rest : Bytes) (s : Parser) → Ends (Down s) (int_value r n rest s)
unfolding int_value
int_value-Down r n rest s = ground arith

read_int-Down :
    (lc : Libc) (t : Lexed) (f : Filtered) (s : Parser) → Ends (Down s) (read_int lc t f s)
unfolding read_int
read_int-Down lc t (trailing i) s = tt
read_int-Down lc t (clean buf) s = int_value-Down _ _ _ _

pub parse_int_expr-Drop : (lc : Libc) (s : Parser) → Ends (Drop s) (parse_int_expr lc s)
unfolding parse_int_expr is_end
parse_int_expr-Drop lc s =
    Ends-bind (Drop s) (Drop s) _ _ s (expect-Drop Kind.lit_int _ s refl)
      λ t s1 d. Ends-Drop s s1 _ d (read_int-Down lc t _ s1)

read_flt-Down :
    (lc : Libc) (t : Lexed) (f : Filtered) (s : Parser) → Ends (Down s) (read_flt lc t f s)
unfolding read_flt
read_flt-Down lc t (trailing i) s = tt
read_flt-Down lc t (clean buf) s = omega arith

pub parse_flt_expr-Drop : (lc : Libc) (s : Parser) → Ends (Drop s) (parse_flt_expr lc s)
unfolding parse_flt_expr is_end
parse_flt_expr-Drop lc s =
    Ends-bind (Drop s) (Drop s) _ _ s (expect-Drop Kind.lit_flt _ s refl)
      λ t s1 d. Ends-Drop s s1 _ d (read_flt-Down lc t _ s1)

pub parse_chr_expr-Drop : (s : Parser) → Ends (Drop s) (parse_chr_expr s)
unfolding parse_chr_expr is_end
parse_chr_expr-Drop s =
    Ends-bind (Drop s) (Drop s) _ _ s (expect-Drop Kind.lit_chr _ s refl) λ t s1 d. d

pub parse_str_expr-Drop : (s : Parser) → Ends (Drop s) (parse_str_expr s)
unfolding parse_str_expr is_end
parse_str_expr-Drop s =
    Ends-bind (Drop s) (Drop s) _ _ s (expect-Drop Kind.lit_str _ s refl) λ t s1 d. d

pub parse_var_expr-Drop : (s : Parser) → Ends (Drop s) (parse_var_expr s)
unfolding parse_var_expr is_end
parse_var_expr-Drop s =
    Ends-bind (Drop s) (Drop s) _ _ s (expect-Drop Kind.ident _ s refl) λ t s1 d. d

pub parse_selector_expr-Drop : (s : Parser) → Ends (Drop s) (parse_selector_expr s)
unfolding parse_selector_expr is_end
parse_selector_expr-Drop s =
    Ends-bind (Drop s) (Drop s) _ _ s (expect-Drop Kind.dot _ s refl) λ t s1 d.
      Ends-bind (Drop s) (Drop s1) _ _ s1 (expect-Drop Kind.ident _ s1 refl) λ n s2 x. omega arith

either-live : (t : Lexed) → (is Kind.kw_true t || is Kind.kw_false t) ≡ true → is_end t.kind ≡ false
unfolding is_end
either-live t e = elim (Bool-cases (is Kind.kw_true t)) [
  | inl a ↦ is-live Kind.kw_true t refl a
  | inr b ↦ is-live Kind.kw_false t refl (ground arith)
]

pub operator-live : (k : Kind) (p : ℕ) → prec_below k p ≡ false → is_end k ≡ false
unfolding is_end binary_prec_
operator-live Kind.end p h = ground arith
operator-live _ p h = refl

pub parse_bool_expr-Drop : (s : Parser) → Ends (Drop s) (parse_bool_expr s)
unfolding parse_bool_expr is_end
parse_bool_expr-Drop s = Ends-bind (Drop s) (IsPeeked s) _ _ s (peek-IsPeeked s) λ t s1 p.
    Ends-branch (Drop s) (is Kind.kw_true t || is Kind.kw_false t) _ _ s1
      (λ e.
        Ends-bind (Drop s) (Drop s1) _ _ s1 (next-Drop s1 (ap is_end (sym p.0) ∙ either-live t e))
          λ u s2 x. omega (arith, p.1))
      (λ e. tt)
