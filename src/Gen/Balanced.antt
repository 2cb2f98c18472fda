-- ===== src/Gen/Balanced.antt =====
-- Code generation of a statement keeps the scopes balanced.
use rox.Gen.Assigned.{gen_let-Keeps, gen_using-Keeps, gen_expr-Keeps, gen_assign-Keeps}
use mathlib.Core.Path.{subst}
use rox.Gen.StmtGen.{
  gen_turns, enter, run_opt, to_loop, otherwise, else_block, gen_ret, value_of, ret_type, return_as,
  leave_scopes, loop_test,
}
use rox.Gen.Assign.{b32_type, deref, fn_addr, is_tuple, is_union}
use rox.Types.{count, types, nth}
use rox.Gen.Emit.{Instr, Trouble, call, ◌>>=◌}
use rox.Gen.Scopes.{Loop}
use rox.Prelude.{
  length, get_elem?, zero, suc, refl, Option, none, some, List, [], ◌∷◌, ◌==◌, ◌&&◌, ◌++◌, ℕ,
}
use rox.Ast.{Expr}
use rox.Stmt.{Stmt, Stmts, OptStmt, no_stmts, more_stmts, no_stmt, a_stmt}
use rox.Lexer.Token.{Range}
use rox.Types.{CgType}
use rox.Gen.Scopes.{CgScope, Value, new_scope, enclosing_loop}
use rox.Gen.Emit.{Step, needed}
use rox.Gen.Assign.{Unit_}
use rox.Gen.StmtGen.{
  gen_ret, gen_stmts, emit_below, emit_defers, emit_all, gen_block, gen_return, gen_break,
  gen_continue, gen_branches, gen_if, gen_for, gen_defer, dispatch, gen_stmt,
}
use rox.Gen.Holds.{
  holds_exhausted, Holds-Above, Holds-pop_scope, Kept_refl, Holds-and_then, IsQuiet, Kept,
}
use rox.Gen.Keeps.{
  Keeps-last_scope, Keeps-branch_on, Keeps-emit_alloca, Keeps-needed, Keeps-append_block,
  Keeps-call, Keeps-create_block, Keeps-if, Keeps-position, Keeps-read, Keeps-bind, Keeps-build,
  Keeps-pure, Keeps-report, Keeps-scopes_last, Keeps,
}

module _ (u : Unit_) (run : Stmt → Step (Unit {0})) (run-Keeps : (s : Stmt) → Keeps (run s)) where
  gen_stmts-Keeps : (ss : Stmts) → Keeps (gen_stmts u run ss)
  unfolding gen_stmts
  gen_stmts-Keeps no_stmts = Keeps-pure tt
  gen_stmts-Keeps (more_stmts s ss) = Keeps-bind (run-Keeps s) (λ x. gen_stmts-Keeps ss)

  emit_below-Keeps : (ds : List Stmt) (n : ℕ) → Keeps (emit_below u run ds n)
  unfolding emit_below
  emit_below-Keeps ds zero = Keeps-pure tt
  emit_below-Keeps ds (suc i) =
      Keeps-bind (Keeps-read (get_elem? ds i))
        (λ d. Keeps-bind (run-Keeps d) (λ x. emit_below-Keeps ds i))

  emit_defers-Keeps : (c : CgScope) → Keeps (emit_defers u run c)
  unfolding emit_defers
  emit_defers-Keeps c = emit_below-Keeps c.defers (length c.defers)

  emit_all-Keeps : (ds : List CgScope) → Keeps (emit_all u run ds)
  unfolding emit_all
  emit_all-Keeps [] = Keeps-pure tt
  emit_all-Keeps (d ∷ ds) = Keeps-bind (emit_defers-Keeps d) (λ x. emit_all-Keeps ds)

  gen_block-Keeps : (ss : Stmts) → Keeps (gen_block u run ss)
  unfolding gen_block
  gen_block-Keeps ss cs b k =
      let inner = new_scope ∷ b.scopes in
      Holds-and_then _ (gen_stmts-Keeps ss inner (record b { scopes = inner }) (Kept_refl inner))
        (λ x b1 k1. Holds-and_then _ (Keeps-scopes_last inner b1 k1) (λ c b2 k2.
          Holds-and_then _ (emit_defers-Keeps c inner b2 k2)
            (λ y b3 k3. Holds-pop_scope b3 new_scope b.scopes k3 k)))

  leave-Keeps : Keeps (leave_scopes u run)
  leave-Keeps cs b k = emit_all-Keeps b.scopes cs b k

  run_opt-Keeps : (o : OptStmt) → Keeps (run_opt u run o)
  run_opt-Keeps no_stmt = Keeps-pure tt
  run_opt-Keeps (a_stmt s) = run-Keeps s

  to_loop-Keeps :
      (r : Range) (t : Trouble) (f : Loop → ℕ) (o : Option Loop) → Keeps (to_loop u run r t f o)
  to_loop-Keeps r t f none = Keeps-report r t
  to_loop-Keeps r t f (some l) = Keeps-build (Instr.br (f l))

  otherwise-Keeps : (o : OptStmt) (m n : ℕ) → Keeps (otherwise u run o m n)
  otherwise-Keeps no_stmt m n = Keeps-pure tt
  otherwise-Keeps (a_stmt s) m n =
      Keeps-bind (Keeps-append_block m) (λ x.
        Keeps-bind (Keeps-position m) (λ y. Keeps-bind (run-Keeps s) (λ z. Keeps-branch_on n)))

  else_block-Keeps : (o : OptStmt) (n : ℕ) → Keeps (else_block u run o n)
  else_block-Keeps no_stmt n = Keeps-pure n
  else_block-Keeps (a_stmt s) n = Keeps-create_block

  module _ (q : IsQuiet u.on) where
    gen_ret-Keeps : (t : CgType) (o : Option Value) → Keeps (gen_ret u run t o)
    gen_ret-Keeps t none = Keeps-build Instr.ret_void
    gen_ret-Keeps t (some v) =
        Keeps-if (is_union t)
          (Keeps-bind (Keeps-emit_alloca t) (λ a.
            Keeps-bind (Keeps-call (u.on.store a v) (q.store a v)) (λ x.
              Keeps-bind (Keeps-call (u.on.load a) (q.load a))
                (λ w. Keeps-build (Instr.ret w.ref)))))
          (Keeps-if (is_tuple t && count (types t) == 1)
            (Keeps-bind (Keeps-call (u.on.value_at v 0) (q.value_at v 0))
              (λ e. Keeps-bind (Keeps-read e) (λ w. Keeps-build (Instr.ret w.ref))))
            (Keeps-build (Instr.ret v.ref)))

    asked-Keeps :
        (e : Expr) (t : Option CgType) → Keeps (do o ← call (u.on.gen_value e t); needed o)
    asked-Keeps e t = Keeps-bind (Keeps-call (u.on.gen_value e t) (q.gen_value e t)) Keeps-needed

    value_of-Keeps : (e : Option Expr) (t : CgType) → Keeps (value_of u run e t)
    value_of-Keeps none t = Keeps-pure none
    value_of-Keeps (some e) t =
        Keeps-bind (Keeps-call (u.on.gen_value e (some t)) (q.gen_value e (some t)))
          (λ o. Keeps-bind (Keeps-needed o) (λ v. Keeps-pure (some v)))

    ret_type-Keeps : (o : Option Value) → Keeps (ret_type u run o)
    ret_type-Keeps none = Keeps-pure none
    ret_type-Keeps (some a) =
        Keeps-bind (Keeps-read (deref a.type))
          (λ f. Keeps-bind (Keeps-read (nth (types f) 3)) (λ t. Keeps-pure (some t)))

    return_as-Keeps :
        (r : Range) (e : Option Expr) (o : Option CgType) → Keeps (return_as u run r e o)
    return_as-Keeps r e none = Keeps-report r _
    return_as-Keeps r e (some t) =
        Keeps-bind (value_of-Keeps e t) (λ v. Keeps-bind leave-Keeps (λ x. gen_ret-Keeps t v))

    gen_return-Keeps : (r : Range) (e : Option Expr) → Keeps (gen_return u run r e)
    unfolding gen_return
    gen_return-Keeps r e cs b k =
        Keeps-bind (ret_type-Keeps (fn_addr u.fns b.fn)) (return_as-Keeps r e) cs b k

    gen_branches-Keeps : (e : Expr) (s : Stmt) (o : OptStmt) → Keeps (gen_branches u run e s o)
    unfolding gen_branches
    gen_branches-Keeps e s o =
        Keeps-bind (Keeps-call (u.on.gen_value e (some b32_type)) (q.gen_value e (some b32_type)))
          (λ v. Keeps-bind (Keeps-needed v) (λ cond. Keeps-bind Keeps-create_block (λ then_bb.
            Keeps-bind Keeps-create_block (λ join_bb. Keeps-bind (Keeps-append_block then_bb) (λ x1.
              Keeps-bind (else_block-Keeps o join_bb) (λ else_bb.
                Keeps-bind (Keeps-build (Instr.cond_br cond.ref then_bb else_bb)) (λ x2.
                  Keeps-bind (Keeps-position then_bb) (λ x3. Keeps-bind (run-Keeps s) (λ x4.
                    Keeps-bind (Keeps-branch_on join_bb) (λ x5.
                      Keeps-bind (Keeps-last_scope (λ c. record c { tests = [] }) (λ c. refl))
                        (λ x6. Keeps-bind (otherwise-Keeps o else_bb join_bb) (λ x7.
                          Keeps-bind (Keeps-append_block join_bb)
                            (λ x8. Keeps-position join_bb)))))))))))))

    gen_if-Keeps : (i : OptStmt) (e : Expr) (s : Stmt) (o : OptStmt) → Keeps (gen_if u run i e s o)
    unfolding gen_if
    gen_if-Keeps no_stmt e s o cs b k = gen_branches-Keeps e s o cs b k
    gen_if-Keeps (a_stmt i) e s o cs b k =
        let inner = new_scope ∷ b.scopes in
        Holds-and_then _ (run-Keeps i inner (record b { scopes = inner }) (Kept_refl inner))
          (λ x b1 k1.
            Holds-and_then _ (gen_branches-Keeps e s o inner b1 k1)
              (λ y b2 k2. Holds-pop_scope b2 new_scope b.scopes k2 k))

    loop_test-Keeps : (e : Option Expr) (m n : ℕ) → Keeps (loop_test u run e m n)
    loop_test-Keeps none m n = Keeps-build (Instr.br m)
    loop_test-Keeps (some e) m n =
        Keeps-bind (Keeps-call (u.on.gen_value e (some b32_type)) (q.gen_value e (some b32_type)))
          (λ o. Keeps-bind (Keeps-needed o) (λ v. Keeps-build (Instr.cond_br v.ref m n)))

    enter-Keeps : (n : ℕ) → Keeps (enter u run n)
    enter-Keeps n = Keeps-bind (Keeps-position n) (λ x. Keeps-append_block n)

    turns-Keeps :
        (e : Option Expr) (p : OptStmt) (s : Stmt) (o : OptStmt) (l j t f x : ℕ)
        → Keeps (gen_turns u run e p s o l j t f x)
    unfolding gen_turns
    turns-Keeps e p s o l j t f x = Keeps-bind (Keeps-build (Instr.br l)) (λ x1.
        Keeps-bind (Keeps-append_block l) (λ x2. Keeps-bind (Keeps-position l) (λ x3.
          Keeps-bind (loop_test-Keeps e j f) (λ x4. Keeps-bind (enter-Keeps j) (λ x5.
            Keeps-bind (run-Keeps s) (λ x6. Keeps-bind (Keeps-build (Instr.br t)) (λ x7.
              Keeps-bind (enter-Keeps t) (λ x8. Keeps-bind (run_opt-Keeps p) (λ x9.
                Keeps-bind (Keeps-build (Instr.br l)) (λ y1. Keeps-bind (enter-Keeps f) (λ y2.
                  Keeps-bind (run_opt-Keeps o)
                    (λ y3. Keeps-bind (Keeps-build (Instr.br x)) (λ y4. enter-Keeps x)))))))))))))

    gen_for-Keeps :
        (i : OptStmt) (e : Option Expr) (p : OptStmt) (s : Stmt) (o : OptStmt)
        → Keeps (gen_for u run i e p s o)
    unfolding gen_for
    gen_for-Keeps i e p s o cs b k =
        let inner = new_scope ∷ b.scopes in
        Holds-and_then _ (run_opt-Keeps i inner (record b { scopes = inner }) (Kept_refl inner))
          (λ x b1 k1. Holds-and_then _ (Holds-Above new_scope b.scopes _ _ k1) (λ y b2 a.
            Holds-and_then _ (turns-Keeps e p s o _ _ _ _ _ b2.scopes b2 (Kept_refl b2.scopes))
              (λ z b3 k3.
                Holds-pop_scope b3 a.0 b.scopes (subst (λ ds. Kept ds b3.scopes) a.1 k3) k)))

    dispatch-Keeps : (s : Stmt) → Keeps (dispatch u run s)
    unfolding dispatch gen_break gen_continue gen_defer
    dispatch-Keeps (Stmt.block_stmt r ss) = gen_block-Keeps ss
    dispatch-Keeps (Stmt.return_stmt r e) = gen_return-Keeps r e
    dispatch-Keeps (Stmt.defer_stmt r s) =
        Keeps-last_scope (λ c. record c { defers = c.defers ++ (s ∷ []) }) (λ c. refl)
    dispatch-Keeps (Stmt.break_stmt r) =
        λ cs b k. to_loop-Keeps r _ _ (enclosing_loop b.scopes) cs b k
    dispatch-Keeps (Stmt.continue_stmt r) =
        λ cs b k. to_loop-Keeps r _ _ (enclosing_loop b.scopes) cs b k
    dispatch-Keeps (Stmt.if_stmt r i e s o) = gen_if-Keeps i e s o
    dispatch-Keeps (Stmt.let_stmt r name e attrs) = gen_let-Keeps u q r name e attrs
    dispatch-Keeps (Stmt.using_stmt r name e) = gen_using-Keeps u q r name e
    dispatch-Keeps (Stmt.for_stmt r i e p s o) = gen_for-Keeps i e p s o
    dispatch-Keeps (Stmt.expr_stmt r e) = gen_expr-Keeps u q e
    dispatch-Keeps (Stmt.assign_stmt r o dst src) = gen_assign-Keeps u q r o dst src

-- On any fuel.
pub gen_stmt-Keeps : (u : Unit_) → IsQuiet u.on → (fuel : ℕ) (s : Stmt) → Keeps (gen_stmt u fuel s)
unfolding gen_stmt
gen_stmt-Keeps u q zero s = λ cs b k. holds_exhausted
gen_stmt-Keeps u q (suc fuel) s =
    λ cs b k. dispatch-Keeps u (gen_stmt u fuel) (gen_stmt-Keeps u q fuel) q s cs b k
