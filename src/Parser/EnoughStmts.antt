-- ===== src/Parser/EnoughStmts.antt =====
-- The fuel that statements take.
use rox.Prelude.{ℕ, suc, ◌+◌, ◌*◌, ◌<◌, ◌≡◌, refl, true, false, arith}
use rox.Ast.{Attrs, no_attrs}
use rox.Lexer.Token.{Kind, is_end}
use rox.Parser.State.{Parser, M, is}
use rox.Parser.Precedence.{at_kind}
use rox.Parser.Enough.{Runs, Fits}
use rox.Parser.Ends.{
  live, Ends, Down, Drop, Ends-weaken, Ends-bind, Ends-branch, Ends-when, next-Drop, expect-Drop,
  peek-IsPeeked, IsPeeked,
}
use rox.Parser.StmtParser.{
  StmtCalls, get_in_defer, set_in_defer, stmts_turn, parse_block_stmt, opt_expr, return_body,
  parse_return_stmt, parse_defer_stmt, parse_break_stmt, parse_continue_stmt, parse_let_stmt,
  parse_using_stmt, opt_let,
}

-- A function that takes a token before it returns.
abbrev pub Takes : {A : Type 0} → ℕ → ℕ → M A → Type 0
Takes fuel rank m = (s : Parser) → 3 * live s.ahead + rank < fuel → Ends (Drop s) (m s)

pub record StmtFits (fuel : ℕ) (c : StmtCalls) : Type 0 where
  pub exprs : Fits fuel c.exprs
  pub stmt : Takes fuel 2 c.parse_stmt
  pub if_ : Takes fuel 2 c.parse_if_stmt
  pub stmts : Runs fuel 3 c.stmts_loop

pub parse_break_stmt-Drop : (s : Parser) → Ends (Drop s) (parse_break_stmt s)
unfolding parse_break_stmt is_end
parse_break_stmt-Drop s =
    Ends-bind (Drop s) (Drop s) _ _ s (expect-Drop Kind.kw_break _ s refl) λ t s1 d.
      Ends-bind (Drop s) (Drop s1) _ _ s1 (expect-Drop Kind.semi _ s1 refl) λ n s2 x. omega arith

pub parse_continue_stmt-Drop : (s : Parser) → Ends (Drop s) (parse_continue_stmt s)
unfolding parse_continue_stmt is_end
parse_continue_stmt-Drop s =
    Ends-bind (Drop s) (Drop s) _ _ s (expect-Drop Kind.kw_continue _ s refl) λ t s1 d.
      Ends-bind (Drop s) (Drop s1) _ _ s1 (expect-Drop Kind.semi _ s1 refl) λ n s2 x. omega arith

module _ (fuel : ℕ) (c : StmtCalls) (g : StmtFits fuel c) where
  pub stmts_turn-Runs : Runs (suc fuel) 3 (stmts_turn c)
  unfolding stmts_turn is_end
  stmts_turn-Runs s h =
      Ends-when (Down s) Kind.rbrace refl _ _ s (λ s1 e k. omega arith)
        λ s1 k. Ends-bind (Down s) (Drop s1) _ _ s1 (g.stmt s1 (omega arith)) λ t s2 d.
          Ends-bind (Down s) (Down s2) _ _ s2 (g.stmts s2 (omega arith)) λ ts s3 x. omega arith

  pub parse_block_stmt-Takes : Takes fuel 1 (parse_block_stmt c)
  unfolding parse_block_stmt is_end
  parse_block_stmt-Takes s h =
      Ends-bind (Drop s) (Drop s) _ _ s (expect-Drop Kind.lbrace _ s refl) λ t s1 d.
        Ends-bind (Drop s) (Down s1) _ _ s1 (g.stmts s1 (omega arith)) λ ts s2 x.
          Ends-bind (Drop s) (Drop s2) _ _ s2 (expect-Drop Kind.rbrace _ s2 refl)
            λ t s3 y. omega arith

  pub opt_expr-Runs : (k : Kind) → Runs fuel 1 (opt_expr c.exprs k)
  unfolding opt_expr
  opt_expr-Runs k s h = Ends-bind (Down s) (IsPeeked s) _ _ s (peek-IsPeeked s) λ t s1 p.
      Ends-branch (Down s) (is k t) _ _ s1 (λ b. omega (arith, p.1))
        λ b.
          Ends-bind (Down s) (Down s1) _ _ s1 (g.exprs.expr s1 (omega (arith, p.1)))
            λ e s2 x. omega (arith, p.1)

  return_body-Takes :
      (s : Parser)
      → 3 * live s.ahead + 1 < fuel
      → is_end (at_kind s) ≡ false
      → Ends (Drop s) (return_body c s)
  unfolding return_body is_end
  return_body-Takes s h k = Ends-bind (Drop s) (Drop s) _ _ s (next-Drop s k) λ t s1 d.
      Ends-bind (Drop s) (Down s1) _ _ s1 (opt_expr-Runs Kind.semi s1 (omega arith)) λ e s2 x.
        Ends-bind (Drop s) (Drop s2) _ _ s2 (expect-Drop Kind.semi _ s2 refl) λ t s3 y. omega arith

  pub parse_return_stmt-Takes : Takes fuel 1 (parse_return_stmt c)
  unfolding parse_return_stmt is_end
  parse_return_stmt-Takes s h =
      Ends-when (Drop s) Kind.kw_return refl _ _ s
        (λ s1 k x.
          Ends-bind (Drop s) (λ a s'. s' ≡ s1) get_in_defer _ s1 refl
            λ b s2 y.
              Ends-branch (Drop s) b _ _ s2 (λ e. tt)
                λ e. rw y (
                  Ends-weaken (Drop s1) (Drop s) _ (λ a s3 z. omega arith)
                    (return_body-Takes s1 (omega arith) k)))
        (λ s1 x. tt)

  pub parse_defer_stmt-Takes : Takes fuel 1 (parse_defer_stmt c)
  unfolding parse_defer_stmt is_end
  parse_defer_stmt-Takes s h =
      Ends-bind (Drop s) (Drop s) _ _ s (expect-Drop Kind.kw_defer _ s refl) λ t s1 d.
        Ends-bind (Drop s) (Down s1) (set_in_defer true) _ s1 (omega arith) λ b s2 x.
          Ends-bind (Drop s) (Drop s2) _ _ s2 (g.stmt s2 (omega arith)) λ stmt s3 y.
            Ends-bind (Drop s) (Down s3) (set_in_defer false) _ s3 (omega arith)
              λ b s4 z. omega arith

  pub parse_let_stmt-Takes : (a : Attrs) → Takes fuel 1 (parse_let_stmt c a)
  unfolding parse_let_stmt is_end
  parse_let_stmt-Takes a s h =
      Ends-bind (Drop s) (Drop s) _ _ s (expect-Drop Kind.kw_let _ s refl) λ t s1 d.
        Ends-bind (Drop s) (Drop s1) _ _ s1 (expect-Drop Kind.ident _ s1 refl) λ t s2 x.
          Ends-bind (Drop s) (Drop s2) _ _ s2 (expect-Drop Kind.eq _ s2 refl) λ t s3 y.
            Ends-bind (Drop s) (Down s3) _ _ s3 (g.exprs.expr s3 (omega arith)) λ e s4 z.
              Ends-bind (Drop s) (Drop s4) _ _ s4 (expect-Drop Kind.semi _ s4 refl)
                λ t s5 w. omega arith

  pub parse_using_stmt-Takes : Takes fuel 1 (parse_using_stmt c)
  unfolding parse_using_stmt is_end
  parse_using_stmt-Takes s h =
      Ends-bind (Drop s) (Drop s) _ _ s (expect-Drop Kind.kw_using _ s refl) λ t s1 d.
        Ends-bind (Drop s) (Drop s1) _ _ s1 (expect-Drop Kind.ident _ s1 refl) λ t s2 x.
          Ends-bind (Drop s) (Drop s2) _ _ s2 (expect-Drop Kind.eq _ s2 refl) λ t s3 y.
            Ends-bind (Drop s) (Down s3) _ _ s3 (g.exprs.expr s3 (omega arith)) λ e s4 z.
              Ends-bind (Drop s) (Drop s4) _ _ s4 (expect-Drop Kind.semi _ s4 refl)
                λ t s5 w. omega arith

  pub opt_let-Runs : Runs fuel 1 (opt_let c)
  unfolding opt_let is_end
  opt_let-Runs s h =
      Ends-when (Down s) Kind.kw_let refl _ _ s
        (λ s1 k x.
          Ends-bind (Down s) (Drop s1) _ _ s1 (parse_let_stmt-Takes no_attrs s1 (omega arith))
            λ t s2 y. omega arith)
        (λ s1 x. omega arith)
