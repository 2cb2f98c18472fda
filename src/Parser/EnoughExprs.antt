-- ===== src/Parser/EnoughExprs.antt =====
-- The fuel that operands take.
use rox.Prelude.{ap, sym, suc, ℕ, ◌*◌, ◌≤◌, ◌≡◌, refl, false, arith, Option, none, some}
use rox.Ast.{Expr, type_expr}
use rox.Lexer.Token.{Kind, Range, is_end}
use rox.Parser.State.{Parser}
use rox.Parser.Calls.{Calls}
use rox.Parser.Precedence.{at_kind}
use rox.Parser.Ends.{
  live, Ends, Down, Drop, Ends-weaken, Ends-Down, Ends-Drop, Ends-bind, Ends-branch, Ends-when,
  Ends-take, next-Drop, expect-Drop, peek-IsPeeked, IsPeeked,
}
use rox.Parser.Expr.{
  tuple_turn, parse_tuple_expr, parse_index_expr, parse_call_expr, agg_turn, parse_agg_expr,
  agg_body, parse_type_expr, primary_case, parse_primary_expr, postfix_case, postfix_turn,
  parse_postfix_expr, unary_node, unary_case, unary_turn, is_type_expr,
}
use rox.Parser.Enough.{Runs, Fits, Drops}
use rox.Parser.EnoughAtoms.{
  parse_int_expr-Drop, parse_flt_expr-Drop, parse_chr_expr-Drop, parse_str_expr-Drop,
  parse_var_expr-Drop, parse_selector_expr-Drop, parse_bool_expr-Drop,
}

module _ (fuel : ℕ) (c : Calls) (g : Fits fuel c) where
  pub tuple_turn-Runs : Runs (suc fuel) 2 (tuple_turn c)
  unfolding tuple_turn is_end
  tuple_turn-Runs s h =
      Ends-when (Down s) Kind.rparen refl _ _ s (λ s1 e k. omega arith)
        λ s1 k. Ends-bind (Down s) (Down s1) _ _ s1 (g.expr s1 (omega arith)) λ e s2 d.
          Ends-take (Down s) Kind.comma refl _ _ s2
            (λ s3 x.
              Ends-when (Down s) Kind.rparen refl _ _ s3 (λ s4 e k. tt)
                λ s4 y.
                  Ends-bind (Down s) (Down s4) _ _ s4 (g.tuple s4 (omega arith))
                    λ es s5 z. omega arith)
            (λ s3 x. omega arith)

  pub parse_tuple_expr-Drops : Drops fuel (parse_tuple_expr c)
  unfolding parse_tuple_expr is_end
  parse_tuple_expr-Drops s h =
      Ends-bind (Drop s) (Drop s) _ _ s (expect-Drop Kind.lparen _ s refl) λ t s1 d.
        Ends-bind (Drop s) (Down s1) _ _ s1 (g.tuple s1 (omega arith)) λ es s2 x.
          Ends-bind (Drop s) (Drop s2) _ _ s2 (expect-Drop Kind.rparen _ s2 refl)
            λ t s3 y. omega arith

  parse_index_expr-Drops : (e : Expr) → Drops fuel (parse_index_expr c e)
  unfolding parse_index_expr is_end
  parse_index_expr-Drops e s h =
      Ends-bind (Drop s) (Drop s) _ _ s (expect-Drop Kind.lbracket _ s refl) λ t s1 d.
        Ends-bind (Drop s) (Down s1) _ _ s1 (g.expr s1 (omega arith)) λ i s2 x.
          Ends-bind (Drop s) (Drop s2) _ _ s2 (expect-Drop Kind.rbracket _ s2 refl)
            λ t s3 y. omega arith

  parse_call_expr-Drops : (e : Expr) → Drops fuel (parse_call_expr c e)
  unfolding parse_call_expr
  parse_call_expr-Drops e s h =
      Ends-bind (Drop s) (Drop s) _ _ s (parse_tuple_expr-Drops s h) λ args s1 d. d

  pub agg_turn-Runs : Runs (suc fuel) 2 (agg_turn c)
  unfolding agg_turn is_end
  agg_turn-Runs s h =
      Ends-when (Down s) Kind.rbrace refl _ _ s (λ s1 e k. omega arith)
        λ s1 k. Ends-bind (Down s) (Down s1) _ _ s1 (g.expr s1 (omega arith)) λ e s2 d.
          Ends-take (Down s) Kind.comma refl _ _ s2
            (λ s3 x.
              Ends-bind (Down s) (Down s3) _ _ s3 (g.agg s3 (omega arith)) λ es s4 z. omega arith)
            (λ s3 x. omega arith)

  agg_body-Drop :
      (s : Parser)
      → 3 * live s.ahead ≤ fuel
      → is_end (at_kind s) ≡ false
      → Ends (Drop s) (agg_body c s)
  unfolding agg_body is_end
  agg_body-Drop s h e = Ends-bind (Drop s) (Drop s) _ _ s (next-Drop s e) λ t s1 d.
      Ends-bind (Drop s) (Down s1) _ _ s1 (g.agg s1 (omega arith)) λ es s2 x.
        Ends-bind (Drop s) (Drop s2) _ _ s2 (expect-Drop Kind.rbrace _ s2 refl)
          λ t s3 y. omega arith

  parse_agg_expr-Drop :
      (o : Option Expr) (s : Parser)
      → 3 * live s.ahead ≤ fuel
      → is_end (at_kind s) ≡ false
      → Ends (Drop s) (parse_agg_expr c o s)
  unfolding parse_agg_expr
  parse_agg_expr-Drop none s h e =
      Ends-bind (Drop s) (Drop s) _ _ s (agg_body-Drop s h e) λ r s1 d. d
  parse_agg_expr-Drop (some (type_expr _ _)) s h e =
      Ends-bind (Drop s) (Drop s) _ _ s (agg_body-Drop s h e) λ r s1 d. d
  parse_agg_expr-Drop (some _) s h e = tt

  pub parse_type_expr-Runs : Runs fuel 1 (parse_type_expr c)
  unfolding parse_type_expr
  parse_type_expr-Runs s h = Ends-bind (Down s) (Down s) _ _ s (g.type s h) λ t s1 d. d

  primary_case-Drop :
      (k : Kind) (s : Parser)
      → 3 * live s.ahead ≤ fuel
      → k ≡ at_kind s
      → Ends (Drop s) (primary_case c k s)
  unfolding primary_case is_end
  primary_case-Drop Kind.dot s h e = parse_selector_expr-Drop s
  primary_case-Drop Kind.kw_type s h e = parse_var_expr-Drop s
  primary_case-Drop Kind.ident s h e = parse_var_expr-Drop s
  primary_case-Drop Kind.kw_true s h e = parse_bool_expr-Drop s
  primary_case-Drop Kind.kw_false s h e = parse_bool_expr-Drop s
  primary_case-Drop Kind.lit_int s h e = parse_int_expr-Drop c.libc s
  primary_case-Drop Kind.lit_flt s h e = parse_flt_expr-Drop c.libc s
  primary_case-Drop Kind.lit_str s h e = parse_str_expr-Drop s
  primary_case-Drop Kind.lit_chr s h e = parse_chr_expr-Drop s
  primary_case-Drop Kind.lparen s h e = parse_tuple_expr-Drops s h
  primary_case-Drop Kind.kw_new s h e =
      Ends-bind (Drop s) (Drop s) _ _ s (next-Drop s (sym (ap is_end e)))
        λ t s1 d. Ends-Drop s s1 _ d (parse_type_expr-Runs s1 (omega arith))
  primary_case-Drop Kind.lbrace s h e = parse_agg_expr-Drop none s h (sym (ap is_end e))
  primary_case-Drop _ s h e = tt

  parse_primary_expr-Drops : Drops fuel (parse_primary_expr c)
  unfolding parse_primary_expr
  parse_primary_expr-Drops s h = Ends-bind (Drop s) (IsPeeked s) _ _ s (peek-IsPeeked s) λ t s1 p.
      Ends-weaken (Drop s1) (Drop s) _ (λ a s2 x. omega (arith, p.1))
        (primary_case-Drop t.kind s1 (omega (arith, p.1)) p.0)

  postfix_case-Down :
      (e : Expr) (k : Kind) (s : Parser)
      → 3 * live s.ahead ≤ fuel
      → k ≡ at_kind s
      → Ends (Down s) (postfix_case c e k s)
  unfolding postfix_case is_end
  postfix_case-Down e Kind.dot s h k =
      Ends-bind (Down s) (Drop s) _ _ s (next-Drop s (sym (ap is_end k))) λ t s1 d.
        Ends-bind (Down s) (Drop s1) _ _ s1 (parse_primary_expr-Drops s1 (omega arith))
          λ f s2 x. Ends-Down s s2 _ (omega arith) (g.postfix _ s2 (omega arith))
  postfix_case-Down e Kind.lbracket s h k =
      Ends-bind (Down s) (Drop s) _ _ s (parse_index_expr-Drops e s h)
        λ f s1 d. Ends-Down s s1 _ (omega arith) (g.postfix _ s1 (omega arith))
  postfix_case-Down e Kind.lparen s h k =
      Ends-bind (Down s) (Drop s) _ _ s (parse_call_expr-Drops e s h)
        λ f s1 d. Ends-Down s s1 _ (omega arith) (g.postfix _ s1 (omega arith))
  postfix_case-Down e Kind.lbrace s h k =
      Ends-branch (Down s) (is_type_expr e) _ _ s
        (λ b.
          Ends-bind (Down s) (Drop s) _ _ s (parse_agg_expr-Drop (some e) s h (sym (ap is_end k)))
            λ f s1 d. Ends-Down s s1 _ (omega arith) (g.postfix _ s1 (omega arith)))
        (λ b. omega arith)
  postfix_case-Down e _ s h k = omega arith

  pub postfix_turn-Runs : (e : Expr) → Runs (suc fuel) 0 (postfix_turn c e)
  unfolding postfix_turn
  postfix_turn-Runs e s h = Ends-bind (Down s) (IsPeeked s) _ _ s (peek-IsPeeked s) λ t s1 p.
      Ends-Down s s1 _ (omega (arith, p.1)) (postfix_case-Down e t.kind s1 (omega (arith, p.1)) p.0)

  parse_postfix_expr-Down :
      (s : Parser) → 3 * live s.ahead ≤ fuel → Ends (Down s) (parse_postfix_expr c s)
  unfolding parse_postfix_expr is_end
  parse_postfix_expr-Down s h =
      Ends-bind (Down s) (Drop s) _ _ s (parse_primary_expr-Drops s h) λ e s1 d.
        Ends-when (Down s) Kind.bang refl _ _ s1
          (λ s2 k x.
            Ends-bind (Down s) (Drop s2) _ _ s2 (next-Drop s2 k)
              λ t s3 y. Ends-Down s s3 _ (omega arith) (g.postfix _ s3 (omega arith)))
          (λ s2 x. Ends-Down s s2 _ (omega arith) (g.postfix e s2 (omega arith)))

  unary_node-Down :
      (node : Range → Expr → Expr) (s : Parser)
      → 3 * live s.ahead ≤ fuel
      → is_end (at_kind s) ≡ false
      → Ends (Down s) (unary_node c node s)
  unfolding unary_node
  unary_node-Down node s h k =
      Ends-bind (Down s) (Drop s) _ _ s (next-Drop s k) λ t s1 d.
        Ends-bind (Down s) (Down s1) _ _ s1 (g.unary s1 (omega arith)) λ e s2 x. omega arith

  unary_case-Down :
      (k : Kind) (s : Parser)
      → 3 * live s.ahead ≤ fuel
      → k ≡ at_kind s
      → Ends (Down s) (unary_case c k s)
  unfolding unary_case is_end
  unary_case-Down Kind.bang s h k = unary_node-Down _ s h (sym (ap is_end k))
  unary_case-Down Kind.minus s h k = unary_node-Down _ s h (sym (ap is_end k))
  unary_case-Down Kind.plus s h k =
      Ends-bind (Down s) (Drop s) _ _ s (next-Drop s (sym (ap is_end k)))
        λ t s1 d. Ends-Down s s1 _ (omega arith) (g.unary s1 (omega arith))
  unary_case-Down Kind.star s h k = unary_node-Down _ s h (sym (ap is_end k))
  unary_case-Down Kind.band s h k = unary_node-Down _ s h (sym (ap is_end k))
  unary_case-Down Kind.ellipsis s h k = unary_node-Down _ s h (sym (ap is_end k))
  unary_case-Down _ s h k = parse_postfix_expr-Down s h

  pub unary_turn-Runs : Runs (suc fuel) 0 (unary_turn c)
  unfolding unary_turn
  unary_turn-Runs s h = Ends-bind (Down s) (IsPeeked s) _ _ s (peek-IsPeeked s) λ t s1 p.
      Ends-Down s s1 _ (omega (arith, p.1)) (unary_case-Down t.kind s1 (omega (arith, p.1)) p.0)
