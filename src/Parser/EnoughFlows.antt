-- ===== src/Parser/EnoughFlows.antt =====
-- The fuel that branches, loops, assignments and all statements take.
use rox.Prelude.{ℕ, suc, ◌+◌, ◌*◌, ◌<◌, ◌≡◌, refl, sym, ap, true, false, arith}
use rox.Ast.{Expr, no_attrs}
use rox.Stmt.{StoreOp}
use rox.Lexer.Token.{Kind, is_end}
use rox.Parser.State.{Parser}
use rox.Parser.Precedence.{at_kind}
use rox.Parser.Enough.{Runs}
use rox.Parser.EnoughFns.{parse_attrs-Drops}
use rox.Parser.Ends.{
  live, Ends, Down, Drop, Ends-weaken, Ends-bind, Ends-when, Ends-take, next-Down, next-Drop,
  expect-Drop, peek-IsPeeked, IsPeeked,
}
use rox.Parser.StmtParser.{
  StmtCalls, else_stmt, if_turn, stores, assignment, parse_expr_stmt, post_stmt, else_block,
  parse_for_stmt, attr_let, stmt_case, stmt_turn,
}
use rox.Parser.EnoughStmts.{
  Takes, StmtFits, parse_block_stmt-Takes, opt_expr-Runs, parse_return_stmt-Takes,
  parse_defer_stmt-Takes, parse_let_stmt-Takes, parse_using_stmt-Takes, opt_let-Runs,
  parse_break_stmt-Drop, parse_continue_stmt-Drop,
}

module _ (fuel : ℕ) (c : StmtCalls) (g : StmtFits fuel c) where
  else_stmt-Runs : Runs fuel 1 (else_stmt c)
  unfolding else_stmt is_end
  else_stmt-Runs s h =
      Ends-take (Down s) Kind.kw_else refl _ _ s
        (λ s1 x.
          Ends-when (Down s) Kind.kw_if refl _ _ s1
            (λ s2 k y.
              Ends-bind (Down s) (Drop s2) _ _ s2 (g.if_ s2 (omega arith)) λ t s3 z. omega arith)
            (λ s2 y.
              Ends-bind (Down s) (Drop s2) _ _ s2 (parse_block_stmt-Takes fuel c g s2 (omega arith))
                λ t s3 z. omega arith))
        (λ s1 x. omega arith)

  if_turn-Takes : Takes fuel 1 (if_turn c)
  unfolding if_turn is_end
  if_turn-Takes s h = Ends-bind (Drop s) (Drop s) _ _ s (expect-Drop Kind.kw_if _ s refl) λ t s1 d.
      Ends-bind (Drop s) (Down s1) _ _ s1 (opt_let-Runs fuel c g s1 (omega arith)) λ i s2 x.
        Ends-bind (Drop s) (Down s2) _ _ s2 (g.exprs.expr s2 (omega arith)) λ e s3 y.
          Ends-bind (Drop s) (Drop s3) _ _ s3 (parse_block_stmt-Takes fuel c g s3 (omega arith))
            λ b s4 z.
              Ends-bind (Drop s) (Down s4) _ _ s4 (else_stmt-Runs s4 (omega arith))
                λ r s5 w. omega arith

  pub if_turn-Runs : Takes (suc fuel) 2 (if_turn c)
  if_turn-Runs s h = if_turn-Takes s (omega arith)

  stores-Runs : (e : Expr) (op : StoreOp) → Runs fuel 1 (stores c e op)
  unfolding stores
  stores-Runs e op s h = Ends-bind (Down s) (Down s) _ _ s (next-Down s) λ t s1 d.
      Ends-bind (Down s) (Down s1) _ _ s1 (g.exprs.expr s1 (omega arith)) λ v s2 x. omega arith

  assignment-Runs : (e : Expr) (k : Kind) → Runs fuel 1 (assignment c e k)
  unfolding assignment
  assignment-Runs e Kind.eq s h = stores-Runs e StoreOp.wr s h
  assignment-Runs e Kind.pluseq s h = stores-Runs e StoreOp.add s h
  assignment-Runs e Kind.minuseq s h = stores-Runs e StoreOp.sub s h
  assignment-Runs e Kind.stareq s h = stores-Runs e StoreOp.mul s h
  assignment-Runs e Kind.fslasheq s h = stores-Runs e StoreOp.div s h
  assignment-Runs e _ s h = omega arith

  parse_expr_stmt-true : Takes fuel 1 (parse_expr_stmt c true)
  unfolding parse_expr_stmt is_end
  parse_expr_stmt-true s h = Ends-bind (Drop s) (Down s) _ _ s (g.exprs.expr s h) λ e s1 d.
      Ends-bind (Drop s) (IsPeeked s1) _ _ s1 (peek-IsPeeked s1) λ t s2 p.
        Ends-bind (Drop s) (Down s2) _ _ s2 (assignment-Runs e t.kind s2 (omega (arith, p.1)))
          λ stmt s3 x.
            Ends-bind (Drop s) (Drop s3) _ _ s3 (expect-Drop Kind.semi _ s3 refl)
              λ t s4 y. omega (arith, p.1)

  parse_expr_stmt-false : Runs fuel 1 (parse_expr_stmt c false)
  unfolding parse_expr_stmt
  parse_expr_stmt-false s h = Ends-bind (Down s) (Down s) _ _ s (g.exprs.expr s h) λ e s1 d.
      Ends-bind (Down s) (IsPeeked s1) _ _ s1 (peek-IsPeeked s1) λ t s2 p.
        Ends-bind (Down s) (Down s2) _ _ s2 (assignment-Runs e t.kind s2 (omega (arith, p.1)))
          λ stmt s3 x. omega (arith, p.1)

  post_stmt-Runs : Runs fuel 1 (post_stmt c)
  unfolding post_stmt is_end
  post_stmt-Runs s h =
      Ends-take (Down s) Kind.semi refl _ _ s
        (λ s1 x.
          Ends-when (Down s) Kind.lbrace refl _ _ s1 (λ s2 k y. tt)
            (λ s2 y.
              Ends-bind (Down s) (Down s2) _ _ s2 (parse_expr_stmt-false s2 (omega arith))
                λ t s3 z. omega arith))
        (λ s1 x. omega arith)

  else_block-Runs : Runs fuel 1 (else_block c)
  unfolding else_block is_end
  else_block-Runs s h =
      Ends-take (Down s) Kind.kw_else refl _ _ s
        (λ s1 x.
          Ends-bind (Down s) (Drop s1) _ _ s1 (parse_block_stmt-Takes fuel c g s1 (omega arith))
            λ t s2 z. omega arith)
        (λ s1 x. omega arith)

  parse_for_stmt-Takes : Takes fuel 1 (parse_for_stmt c)
  unfolding parse_for_stmt is_end
  parse_for_stmt-Takes s h =
      Ends-bind (Drop s) (Drop s) _ _ s (expect-Drop Kind.kw_for _ s refl) λ t s1 d.
        Ends-bind (Drop s) (Down s1) _ _ s1 (opt_let-Runs fuel c g s1 (omega arith)) λ i s2 x.
          Ends-bind (Drop s) (Down s2) _ _ s2 (opt_expr-Runs fuel c g Kind.lbrace s2 (omega arith))
            λ e s3 y.
              Ends-bind (Drop s) (Down s3) _ _ s3 (post_stmt-Runs s3 (omega arith)) λ q s4 z.
                Ends-bind (Drop s) (Drop s4) _ _ s4
                  (parse_block_stmt-Takes fuel c g s4 (omega arith))
                  λ b s5 w.
                    Ends-bind (Drop s) (Down s5) _ _ s5 (else_block-Runs s5 (omega arith))
                      λ r s6 v. omega arith

  attr_let-Takes :
      (s : Parser)
      → 3 * live s.ahead + 1 < fuel
      → is_end (at_kind s) ≡ false
      → Ends (Drop s) (attr_let c s)
  unfolding attr_let is_end
  attr_let-Takes s h k = Ends-bind (Drop s) (Drop s) _ _ s (next-Drop s k) λ t s1 d.
      Ends-bind (Drop s) (Drop s1) _ _ s1 (parse_attrs-Drops fuel c.exprs g.exprs s1 (omega arith))
        λ a s2 x.
          Ends-when (Drop s) Kind.kw_let refl _ _ s2
            (λ s3 k y.
              Ends-weaken (Drop s3) (Drop s) _ (λ b s4 z. omega arith)
                (parse_let_stmt-Takes fuel c g a s3 (omega arith)))
            (λ s3 y. tt)

  stmt_case-Drop :
      (k : Kind) (s : Parser)
      → 3 * live s.ahead + 1 < fuel
      → k ≡ at_kind s
      → Ends (Drop s) (stmt_case c k s)
  unfolding stmt_case is_end
  stmt_case-Drop Kind.lbrace s h k = parse_block_stmt-Takes fuel c g s h
  stmt_case-Drop Kind.kw_return s h k = parse_return_stmt-Takes fuel c g s h
  stmt_case-Drop Kind.kw_defer s h k = parse_defer_stmt-Takes fuel c g s h
  stmt_case-Drop Kind.kw_break s h k = parse_break_stmt-Drop s
  stmt_case-Drop Kind.kw_continue s h k = parse_continue_stmt-Drop s
  stmt_case-Drop Kind.kw_if s h k = if_turn-Takes s h
  stmt_case-Drop Kind.kw_let s h k = parse_let_stmt-Takes fuel c g no_attrs s h
  stmt_case-Drop Kind.kw_using s h k = parse_using_stmt-Takes fuel c g s h
  stmt_case-Drop Kind.kw_for s h k = parse_for_stmt-Takes s h
  stmt_case-Drop Kind.at s h k = attr_let-Takes s h (sym (ap is_end k))
  stmt_case-Drop _ s h k = parse_expr_stmt-true s h

  pub stmt_turn-Takes : Takes (suc fuel) 2 (stmt_turn c)
  unfolding stmt_turn
  stmt_turn-Takes s h = Ends-bind (Drop s) (IsPeeked s) _ _ s (peek-IsPeeked s) λ t s1 p.
      Ends-weaken (Drop s1) (Drop s) _ (λ a s2 x. omega (arith, p.1))
        (stmt_case-Drop t.kind s1 (omega (arith, p.1)) p.0)
