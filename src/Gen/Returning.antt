-- ===== src/Gen/Returning.antt =====
-- A return in a deferred statement, which the parser lets through behind a `defer` inside it.
use rox.Prelude.{◌∙◌}
use mathlib.Core.Path.{subst}
use rox.Prelude.{replicate, zero, suc, ◌≡◌, refl, none, List, [], ◌∷◌, ◌++◌, ℕ, ap, sym}
use rox.Stmt.{Stmt, no_stmts, more_stmts}
use rox.Lexer.Token.{Range}
use rox.Gen.Scopes.{new_scope}
use rox.Gen.Emit.{Building, Instr, exhausted, done, and_then, build}
use rox.Gen.Assign.{Unit_}
use rox.Gen.StmtGen.{
  gen_stmt, dispatch, gen_block, gen_stmts, gen_defer, gen_return, emit_defers, emit_below,
}
use rox.Gen.Lookup.{backwards}
use rox.Gen.Defers.{all_deferred, run_list, Returns, gen_return-all_deferred}

-- `{}`, and `{ defer {} return; }`.
abbrev pub empty_block : Range → Stmt
empty_block r = Stmt.block_stmt r no_stmts

abbrev pub returning : Range → Stmt
returning r =
    Stmt.block_stmt r (
      more_stmts (Stmt.defer_stmt r (empty_block r))
        (more_stmts (Stmt.return_stmt r none) no_stmts))

module _ (u : Unit_) (r : Range) where
  no_fuel : (s : Stmt) (b : Building) → gen_stmt u zero s b ≡ exhausted
  unfolding gen_stmt
  no_fuel s b = refl

  one_left : (b : Building) → gen_stmt u (suc zero) (returning r) b ≡ exhausted
  unfolding gen_stmt dispatch gen_block gen_stmts
  one_left b = refl

  empty_block-done : (fuel : ℕ) (b : Building) → gen_stmt u (suc fuel) (empty_block r) b ≡ done tt b
  unfolding gen_stmt dispatch gen_block gen_stmts emit_defers emit_below
  empty_block-done fuel b = refl

  run_list-exhausted :
      (fuel n : ℕ) (rest : List Stmt) (b : Building)
      → gen_stmt u fuel (returning r) b ≡ exhausted
      → run_list (gen_stmt u fuel) (replicate n (empty_block r) ++ (returning r ∷ rest)) b
        ≡ exhausted
  unfolding run_list
  run_list-exhausted fuel zero rest b h = rw h refl
  run_list-exhausted zero (suc n) rest b h = rw (no_fuel (empty_block r) b) refl
  run_list-exhausted (suc fuel) (suc n) rest b h =
      rw (empty_block-done fuel b) (run_list-exhausted (suc fuel) n rest b h)

  -- The innermost scope in the block, with its own deferred statement.
  abbrev inside : Building → Building
  inside b = record b { scopes = record new_scope { defers = empty_block r ∷ [] } ∷ b.scopes }

  all_deferred-inside :
      (n : ℕ) (rest : List Stmt) (b : Building)
      → all_deferred b.scopes ≡ replicate n (empty_block r) ++ (returning r ∷ rest)
      → all_deferred (inside b).scopes ≡ replicate (suc n) (empty_block r) ++ (returning r ∷ rest)
  unfolding all_deferred backwards
  all_deferred-inside n rest b h = ap (λ ds. empty_block r ∷ ds) h

  return-exhausted :
      (fuel : ℕ) (b : Building)
      → Returns u b.fn
      → run_list (gen_stmt u fuel) (all_deferred b.scopes) b ≡ exhausted
      → gen_return u (gen_stmt u fuel) r none b ≡ exhausted
  return-exhausted fuel b k h =
      gen_return-all_deferred u (gen_stmt u fuel) r b k
      ∙ ap (λ o. and_then o (λ x. build Instr.ret_void)) h

  block-return :
      (fuel : ℕ) (b : Building)
      → gen_return u (gen_stmt u fuel) r none (inside b) ≡ exhausted
      → gen_stmt u (suc (suc fuel)) (returning r) b ≡ exhausted
  unfolding gen_stmt dispatch gen_block gen_stmts gen_defer
  block-return fuel b h = rw h refl

-- In a function whose type is known, where the statements that are deferred are any number of
-- empty blocks and then a block that defers an empty block and returns, no fuel is enough to
-- generate that block: its return generates the block that it stands in.
pub gen_stmt-exhausted :
    (fuel n : ℕ) (u : Unit_) (r : Range) (rest : List Stmt) (b : Building)
    → Returns u b.fn
    → all_deferred b.scopes ≡ replicate n (empty_block r) ++ (returning r ∷ rest)
    → gen_stmt u fuel (returning r) b ≡ exhausted
gen_stmt-exhausted zero n u r rest b k h = no_fuel u r (returning r) b
gen_stmt-exhausted (suc zero) n u r rest b k h = one_left u r b
gen_stmt-exhausted (suc (suc fuel)) n u r rest b k h =
    let d = all_deferred-inside u r n rest b h in
    let i = gen_stmt-exhausted fuel (suc n) u r rest (inside u r b) k d in
    block-return u r fuel b (
      return-exhausted u r fuel (inside u r b) k (
        subst (λ ds. run_list (gen_stmt u fuel) ds (inside u r b) ≡ exhausted) (sym d)
          (run_list-exhausted u r fuel (suc n) rest (inside u r b) i)))
