-- ===== src/Parser/EnoughBinops.antt =====
-- The fuel that binary expressions take.
use rox.Prelude.{◌∙◌, ap, sym, suc, ℕ, arith}
use rox.Ast.{Expr}
use rox.Lexer.Token.{Kind, Range, is_end}
use rox.Parser.State.{Parser}
use rox.Parser.Calls.{Calls}
use rox.Parser.Ends.{
  Ends, Down, Drop, Ends-Down, Ends-bind, Ends-branch, next-Drop, peek-IsPeeked, IsPeeked,
}
use rox.Parser.Expr.{binop_node, binop_operand, tighter, binop_turn, expr_turn}
use rox.Parser.Prec.{prec_below, prec_lt}
use rox.Parser.Enough.{Runs, Fits}
use rox.Parser.EnoughAtoms.{operator-live}
use rox.Parser.EnoughExprs.{parse_type_expr-Runs}

module _ (fuel : ℕ) (c : Calls) (g : Fits fuel c) where
  binop_operand-Runs : (k : Kind) → Runs fuel 1 (binop_operand c k)
  unfolding binop_operand
  binop_operand-Runs Kind.kw_as s h = parse_type_expr-Runs fuel c g s h
  binop_operand-Runs Kind.kw_is s h = parse_type_expr-Runs fuel c g s h
  binop_operand-Runs _ s h = g.unary s (omega arith)

  binop_node-Down :
      (k : Kind) (r : Range) (a b : Expr) (s : Parser) → Ends (Down s) (binop_node k r a b s)
  unfolding binop_node
  binop_node-Down Kind.kw_as r a b s = omega arith
  binop_node-Down Kind.kw_is r a b s = omega arith
  binop_node-Down Kind.kw_of r a b s = omega arith
  binop_node-Down Kind.star r a b s = omega arith
  binop_node-Down Kind.fslash r a b s = omega arith
  binop_node-Down Kind.plus r a b s = omega arith
  binop_node-Down Kind.minus r a b s = omega arith
  binop_node-Down Kind.lshift r a b s = omega arith
  binop_node-Down Kind.rshift r a b s = omega arith
  binop_node-Down Kind.lt r a b s = omega arith
  binop_node-Down Kind.lte r a b s = omega arith
  binop_node-Down Kind.min r a b s = omega arith
  binop_node-Down Kind.gt r a b s = omega arith
  binop_node-Down Kind.gte r a b s = omega arith
  binop_node-Down Kind.max r a b s = omega arith
  binop_node-Down Kind.eqeq r a b s = omega arith
  binop_node-Down Kind.neq r a b s = omega arith
  binop_node-Down Kind.band r a b s = omega arith
  binop_node-Down Kind.bor r a b s = omega arith
  binop_node-Down Kind.land r a b s = omega arith
  binop_node-Down Kind.lor r a b s = omega arith
  binop_node-Down _ r a b s = tt

  tighter-Runs : (k : Kind) (e : Expr) → Runs fuel 0 (tighter c k e)
  unfolding tighter
  tighter-Runs k e s h = Ends-bind (Down s) (IsPeeked s) _ _ s (peek-IsPeeked s) λ t s1 p.
      Ends-branch (Down s) (prec_lt k t.kind) _ _ s1
        (λ b. Ends-Down s s1 _ (omega (arith, p.1)) (g.binop _ e s1 (omega (arith, p.1))))
        (λ b. omega (arith, p.1))

  pub binop_turn-Runs : (p : ℕ) (e : Expr) → Runs (suc fuel) 0 (binop_turn c p e)
  unfolding binop_turn
  binop_turn-Runs p e s h = Ends-bind (Down s) (IsPeeked s) _ _ s (peek-IsPeeked s) λ t s1 k.
      Ends-branch (Down s) (prec_below t.kind p) _ _ s1 (λ b. omega (arith, k.1))
        λ b.
          Ends-bind (Down s) (Drop s1) _ _ s1
            (next-Drop s1 (ap is_end (sym k.0) ∙ operator-live t.kind p b))
            λ u s2 d.
              Ends-bind (Down s) (Down s2) _ _ s2
                (binop_operand-Runs u.kind s2 (omega (arith, k.1)))
                λ r s3 x.
                  Ends-bind (Down s) (Down s3) _ _ s3
                    (tighter-Runs u.kind r s3 (omega (arith, k.1)))
                    λ r s4 y.
                      Ends-bind (Down s) (Down s4) _ _ s4 (binop_node-Down u.kind _ e r s4)
                        λ l s5 z.
                          Ends-Down s s5 _ (omega (arith, k.1))
                            (g.binop p l s5 (omega (arith, k.1)))

  pub expr_turn-Runs : Runs (suc fuel) 1 (expr_turn c)
  unfolding expr_turn
  expr_turn-Runs s h =
      Ends-bind (Down s) (Down s) _ _ s (g.unary s (omega arith))
        λ e s1 d. Ends-Down s s1 _ d (g.binop 0 e s1 (omega arith))
