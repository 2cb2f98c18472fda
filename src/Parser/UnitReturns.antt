-- ===== src/Parser/UnitReturns.antt =====
-- `parse` returns or reports on every list of tokens.
use Prim.Native.String.{String}
use rox.Prelude.{ℕ, zero, suc, ◌+◌, ◌*◌, ◌≤◌, ◌<◌, ◌≡◌, refl, arith, Option, none, some, ap, sym}
use rox.Ast.{Attrs, no_attrs}
use rox.Lexer.Char.{Bytes}
use rox.Prelude.{List, length}
use rox.Parser.State.{Lexed}
use rox.Parser.Run.{start}
use rox.Parser.Ends.{live-length}
use rox.Parser.Source.{source_tokens, source_tokens_total}
use rox.Units.{AstUnit, empty_unit, assign_module, add_import}
use rox.Lexer.Token.{Kind, is_end}
use rox.Parser.State.{Parser, M, ◌>>=◌}
use rox.Parser.Calls.{Libc}
use rox.Parser.Precedence.{at_kind}
use rox.Parser.Ends.{
  live, Ends, Down, Drop, Ends-weaken, Ends-Down, Ends-bind, Ends-when, next-Drop, expect-Drop,
  peek-IsPeeked, IsPeeked,
}
use rox.Parser.Enough.{Runs, Drops}
use rox.Parser.EnoughTypes.{parse_args_type-Drops}
use rox.Parser.EnoughFns.{parse_attrs-Drops, parse_effects-Runs, parse_ret-Runs}
use rox.Parser.EnoughStmts.{Takes, StmtFits, parse_block_stmt-Takes, parse_let_stmt-Takes}
use rox.Parser.StmtParser.{StmtCalls}
use rox.Parser.StmtRun.{stmt_calls}
use rox.Parser.StmtReturns.{stmt_calls-StmtFits}
use rox.Parser.UnitParser.{
  parse_module, parse_import, parse_effect, fn_objs, parse_fn, parse_typedef, Loop, put_unit,
  unit_case, unit_loop, parse,
}

parse_module-Drop : (s : Parser) → Ends (Drop s) (parse_module s)
unfolding parse_module is_end
parse_module-Drop s =
    Ends-bind (Drop s) (Drop s) _ _ s (expect-Drop Kind.kw_module _ s refl) λ t s1 d.
      Ends-bind (Drop s) (Drop s1) _ _ s1 (expect-Drop Kind.ident _ s1 refl) λ t s2 x.
        Ends-bind (Drop s) (Drop s2) _ _ s2 (expect-Drop Kind.semi _ s2 refl) λ t s3 y. omega arith

parse_import-Drop : (s : Parser) → Ends (Drop s) (parse_import s)
unfolding parse_import is_end
parse_import-Drop s =
    Ends-bind (Drop s) (Drop s) _ _ s (expect-Drop Kind.kw_import _ s refl) λ t s1 d.
      Ends-bind (Drop s) (Drop s1) _ _ s1 (expect-Drop Kind.ident _ s1 refl) λ t s2 x.
        Ends-bind (Drop s) (Drop s2) _ _ s2 (expect-Drop Kind.semi _ s2 refl) λ t s3 y. omega arith

module _ (fuel : ℕ) (c : StmtCalls) (g : StmtFits fuel c) where
  parse_effect-Drops : Drops fuel (parse_effect c.exprs)
  unfolding parse_effect is_end
  parse_effect-Drops s h =
      Ends-bind (Drop s) (Drop s) _ _ s (expect-Drop Kind.kw_effect _ s refl) λ t s1 d.
        Ends-bind (Drop s) (Drop s1) _ _ s1 (expect-Drop Kind.ident _ s1 refl) λ t s2 x.
          Ends-bind (Drop s) (Drop s2) _ _ s2 (expect-Drop Kind.eq _ s2 refl) λ t s3 y.
            Ends-bind (Drop s) (Down s3) _ _ s3 (g.exprs.type s3 (omega arith)) λ u s4 z.
              Ends-bind (Drop s) (Drop s4) _ _ s4 (expect-Drop Kind.semi _ s4 refl)
                λ t s5 w. omega arith

  parse_typedef-Drops : (a : Attrs) → Drops fuel (parse_typedef c.exprs a)
  unfolding parse_typedef is_end
  parse_typedef-Drops a s h =
      Ends-bind (Drop s) (Drop s) _ _ s (expect-Drop Kind.kw_type _ s refl) λ t s1 d.
        Ends-bind (Drop s) (Drop s1) _ _ s1 (expect-Drop Kind.ident _ s1 refl) λ t s2 x.
          Ends-bind (Drop s) (Drop s2) _ _ s2 (expect-Drop Kind.eq _ s2 refl) λ t s3 y.
            Ends-bind (Drop s) (Down s3) _ _ s3 (g.exprs.type s3 (omega arith)) λ u s4 z.
              Ends-bind (Drop s) (Drop s4) _ _ s4 (expect-Drop Kind.semi _ s4 refl)
                λ t s5 w. omega arith

  fn_objs-Runs : Runs fuel 1 (fn_objs c.exprs)
  unfolding fn_objs is_end
  fn_objs-Runs s h =
      Ends-when (Down s) Kind.lparen refl _ _ s
        (λ s1 k x.
          Ends-weaken (Drop s1) (Down s) _ (λ a s2 y. omega arith)
            (parse_args_type-Drops fuel c.exprs g.exprs s1 (omega arith)))
        (λ s1 x. omega arith)

  parse_fn-Takes : (a : Attrs) → Takes fuel 1 (parse_fn c a)
  unfolding parse_fn is_end
  parse_fn-Takes a s h =
      Ends-bind (Drop s) (Drop s) _ _ s (expect-Drop Kind.kw_fn _ s refl) λ t s1 d.
        Ends-bind (Drop s) (Down s1) _ _ s1 (fn_objs-Runs s1 (omega arith)) λ o s2 x.
          Ends-bind (Drop s) (Drop s2) _ _ s2 (expect-Drop Kind.ident _ s2 refl) λ t s3 y.
            Ends-bind (Drop s) (Drop s3) _ _ s3
              (parse_args_type-Drops fuel c.exprs g.exprs s3 (omega arith))
              λ l s4 z.
                Ends-bind (Drop s) (Down s4) _ _ s4
                  (parse_effects-Runs fuel c.exprs g.exprs s4 (omega arith))
                  λ e s5 w.
                    Ends-bind (Drop s) (Down s5) _ _ s5
                      (parse_ret-Runs fuel c.exprs g.exprs s5 (omega arith))
                      λ r s6 v.
                        Ends-bind (Drop s) (Drop s6) _ _ s6
                          (parse_block_stmt-Takes fuel c g s6 (omega arith)) λ b s7 u. omega arith

  module _ (loop : Loop) (goes : (unit : AstUnit) (a : Attrs) → Runs fuel 2 (loop unit a)) where
    put_unit-Runs :
        (x : String) (a : Attrs) (o : Option AstUnit) → Runs fuel 2 (put_unit loop x a o)
    unfolding put_unit
    put_unit-Runs x a none s h = tt
    put_unit-Runs x a (some unit) s h = goes unit a s h

    -- A part that takes a token, and the loop behind it.
    part-Down :
        {A : Type 0} (m : M A) (f : A → M AstUnit) (s : Parser)
        → 3 * live s.ahead + 1 < fuel
        → Ends (Drop s) (m s)
        → ((a : A) → Runs fuel 2 (f a))
        → Ends (Down s) ((m >>= f) s)
    part-Down m f s h d r =
        Ends-bind (Down s) (Drop s) m f s d
          λ a s1 x. Ends-Down s s1 _ (omega arith) (r a s1 (omega arith))

    unit_case-Down :
        (unit : AstUnit) (a : Attrs) (k : Kind) (s : Parser)
        → 3 * live s.ahead + 1 < fuel
        → k ≡ at_kind s
        → Ends (Down s) (unit_case c loop unit a k s)
    unfolding unit_case is_end
    unit_case-Down unit a Kind.at s h k =
        Ends-bind (Down s) (Drop s) _ _ s (next-Drop s (sym (ap is_end k))) λ t s1 d.
          Ends-bind (Down s) (Drop s1) _ _ s1
            (parse_attrs-Drops fuel c.exprs g.exprs s1 (omega arith))
            λ b s2 x. Ends-Down s s2 _ (omega arith) (goes unit b s2 (omega arith))
    unit_case-Down unit a Kind.kw_fn s h k =
        part-Down _ _ s h (parse_fn-Takes a s h) (λ x. goes _ no_attrs)
    unit_case-Down unit a Kind.kw_type s h k =
        part-Down _ _ s h (parse_typedef-Drops a s (omega arith)) (λ x. goes _ no_attrs)
    unit_case-Down unit a Kind.kw_let s h k =
        part-Down _ _ s h (parse_let_stmt-Takes fuel c g a s h) (λ x. goes _ no_attrs)
    unit_case-Down unit a Kind.kw_module s h k =
        part-Down _ _ s h (parse_module-Drop s) (λ x. put_unit-Runs _ a (assign_module unit x))
    unit_case-Down unit a Kind.kw_import s h k =
        part-Down _ _ s h (parse_import-Drop s) (λ x. put_unit-Runs _ a (add_import unit x))
    unit_case-Down unit a Kind.kw_effect s h k =
        part-Down _ _ s h (parse_effect-Drops s (omega arith)) (λ x. goes _ a)
    unit_case-Down unit a Kind.end s h k = omega arith
    unit_case-Down unit a _ s h k = tt

unit_loop-Runs :
    (lc : Libc) (fuel : ℕ) (unit : AstUnit) (a : Attrs) → Runs fuel 2 (unit_loop lc fuel unit a)
unfolding unit_loop
unit_loop-Runs lc zero unit a s h = absurd (omega arith)
unit_loop-Runs lc (suc fuel) unit a s h =
    Ends-bind (Down s) (IsPeeked s) _ _ s (peek-IsPeeked s) λ t s1 p.
      Ends-Down s s1 _ (omega (arith, p.1)) (
        unit_case-Down fuel (stmt_calls lc fuel) (stmt_calls-StmtFits lc fuel) (unit_loop lc fuel)
          (unit_loop-Runs lc fuel) unit a t.kind s1 (omega (arith, p.1)) p.0)

-- With more fuel than three units for each token ahead that is not `END`, and two more, `parse`
-- never runs out of fuel, whatever the tokens: it reports an error, or returns a unit with no
-- more such tokens ahead than before.
pub parse-Ends :
    (lc : Libc) (fuel : ℕ) (s : Parser)
    → 3 * live s.ahead + 2 < fuel
    → Ends (λ u s'. live s'.ahead ≤ live s.ahead) (parse lc fuel s)
unfolding parse
parse-Ends lc fuel s h = unit_loop-Runs lc fuel empty_unit no_attrs s h

-- For every byte string the lexer gives a list of tokens up to the first `END`, and on three
-- units of fuel for each of these tokens, and three more, `parse` over them gives nothing, with
-- an error reported or with none, or it returns a unit, with no more tokens ahead that are not
-- `END` than before.
pub parse-source_tokens :
    (lc : Libc) (bs : Bytes)
    → (ts : List Lexed) × (source_tokens (length bs + 1) (record { bytes = bs; offset = 0 })
        ≡ some ts)
      × Ends (λ u s'. live s'.ahead ≤ live ts) (parse lc (3 * length ts + 3) (start ts))
parse-source_tokens lc bs =
    let (ts, found, _) =
      source_tokens_total (length bs + 1) (record { bytes = bs; offset = 0 }) (omega arith)
        (omega arith) in
    (ts, found, parse-Ends lc (3 * length ts + 3) (start ts) (omega (arith, live-length ts)))
