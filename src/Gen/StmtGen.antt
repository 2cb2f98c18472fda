-- ===== src/Gen/StmtGen.antt =====
-- cg_stmt.cpp: `codegen` of the nodes of statements, over one another through `run`, which
-- `gen_stmt` gives on fuel.
use rox.Gen.Emit.{pure}
use rox.Prelude.{
  length, get_elem?, zero, suc, if◌then◌else◌, Option, none, some, List, [], ◌∷◌, ◌==◌, ◌&&◌, ◌++◌,
  ℕ,
}
use rox.Ast.{Expr}
use rox.Stmt.{Stmt, Stmts, OptStmt, no_stmts, more_stmts, no_stmt, a_stmt}
use rox.Lexer.Token.{Range}
use rox.Types.{CgType, types, nth, count}
use rox.Gen.Emit.{
  branch_on, cond_br, ret, append_block, br, create_block, emit_alloca, needed, pop_scope, read,
  ret_void, scopes_last, Trouble, build, call, done, exhausted, last_scope, position, push_scope,
  report, Step, ◌>>=◌, ◌>>◌,
}
use rox.Gen.Scopes.{Loop, enclosing_loop, CgScope, Value}
use rox.Gen.Assign.{
  Unit_, b32_type, deref, fn_addr, is_tuple, is_union, gen_let, gen_using, gen_expr, gen_assign,
}

module _ (u : Unit_) (run : Stmt → Step (Unit {0})) where
  unfoldable pub gen_stmts : Stmts → Step (Unit {0})
  gen_stmts no_stmts = pure tt
  gen_stmts (more_stmts s ss) = do run s; gen_stmts ss

  -- `CgScope::emit_defers`: from the last one to the first.
  unfoldable pub emit_below : List Stmt → ℕ → Step (Unit {0})
  emit_below ds zero = pure tt
  emit_below ds (suc i) = do d ← read (get_elem? ds i); run d; emit_below ds i

  unfoldable pub emit_defers : CgScope → Step (Unit {0})
  emit_defers c = emit_below c.defers (length c.defers)

  -- `AstBlockStmt`.
  unfoldable pub gen_block : Stmts → Step (Unit {0})
  gen_block ss = do push_scope; gen_stmts ss; c ← scopes_last; emit_defers c; pop_scope

  -- The defers of all scopes, the innermost first.
  unfoldable pub emit_all : List CgScope → Step (Unit {0})
  emit_all [] = pure tt
  emit_all (c ∷ cs) = do emit_defers c; emit_all cs

  -- A union is built on the stack, with no look at whether that is possible; the tuple of one
  -- element is that element.
  abbrev pub gen_ret : CgType → Option Value → Step (Unit {0})
  gen_ret t none = build ret_void
  gen_ret t (some v) =
      if is_union t
      then (do
        a ← emit_alloca t
        stored ← call (u.on.store a v)
        w ← call (u.on.load a)
        build (ret w.ref))
      else if is_tuple t && count (types t) == 1
      then (do e ← call (u.on.value_at v 0); w ← read e; build (ret w.ref))
      else build (ret v.ref)

  -- The type that the function under way returns.
  abbrev pub ret_type : Option Value → Step (Option CgType)
  ret_type none = pure none
  ret_type (some a) = do f ← read (deref a.type); t ← read (nth (types f) 3); pure (some t)

  abbrev pub value_of : Option Expr → CgType → Step (Option Value)
  value_of none t = pure none
  value_of (some e) t = do o ← call (u.on.gen_value e (some t)); v ← needed o; pure (some v)

  abbrev pub leave_scopes : Step (Unit {0})
  leave_scopes b = emit_all b.scopes b

  abbrev pub return_as : Range → Option Expr → Option CgType → Step (Unit {0})
  return_as r e none = report r Trouble.no_return_type
  return_as r e (some t) = do v ← value_of e t; leave_scopes; gen_ret t v

  abbrev this_fn : Step (Option Value)
  this_fn b = done (fn_addr u.fns b.fn) b

  -- `AstReturnStmt`.
  unfoldable pub gen_return : Range → Option Expr → Step (Unit {0})
  gen_return r e = do a ← this_fn; o ← ret_type a; return_as r e o

  abbrev pub to_loop : Range → Trouble → (Loop → ℕ) → Option Loop → Step (Unit {0})
  to_loop r t f none = report r t
  to_loop r t f (some l) = build (br (f l))

  -- `AstBreakStmt` and `AstContinueStmt`.
  unfoldable pub gen_break : Range → Step (Unit {0})
  gen_break r b = to_loop r Trouble.no_loop_to_break (λ l. l.exit) (enclosing_loop b.scopes) b

  unfoldable pub gen_continue : Range → Step (Unit {0})
  gen_continue r b = to_loop r Trouble.no_loop_to_continue (λ l. l.post) (enclosing_loop b.scopes) b

  abbrev pub run_opt : OptStmt → Step (Unit {0})
  run_opt no_stmt = pure tt
  run_opt (a_stmt s) = run s

  abbrev pub clear_tests : Step (Unit {0})
  clear_tests = last_scope (λ c. record c { tests = [] })

  -- The rest of an `if`, with the blocks to join at and to go on with otherwise.
  abbrev pub otherwise : OptStmt → ℕ → ℕ → Step (Unit {0})
  otherwise no_stmt else_bb join_bb = pure tt
  otherwise (a_stmt s) else_bb join_bb = do
    append_block else_bb
    position else_bb
    run s
    branch_on join_bb

  abbrev pub else_block : OptStmt → ℕ → Step ℕ
  else_block no_stmt join_bb = pure join_bb
  else_block (a_stmt s) join_bb = create_block

  unfoldable pub gen_branches : Expr → Stmt → OptStmt → Step (Unit {0})
  gen_branches e s other_s = do
    o ← call (u.on.gen_value e (some b32_type))
    cond ← needed o
    then_bb ← create_block
    join_bb ← create_block
    append_block then_bb
    else_bb ← else_block other_s join_bb
    build (cond_br cond.ref then_bb else_bb)
    position then_bb
    run s
    branch_on join_bb
    clear_tests
    otherwise other_s else_bb join_bb
    append_block join_bb
    position join_bb

  -- `AstIfStmt`: a scope of its own where there is a statement in front.
  unfoldable pub gen_if : OptStmt → Expr → Stmt → OptStmt → Step (Unit {0})
  gen_if no_stmt e s other_s = gen_branches e s other_s
  gen_if (a_stmt i) e s other_s = do push_scope; run i; gen_branches e s other_s; pop_scope

  abbrev pub set_loop : ℕ → ℕ → Step (Unit {0})
  set_loop post exit =
      last_scope (λ c. record c { loop = some (record { post = post; exit = exit }) })

  abbrev pub loop_test : Option Expr → ℕ → ℕ → Step (Unit {0})
  loop_test none join_bb else_bb = build (br join_bb)
  loop_test (some e) join_bb else_bb = do
    o ← call (u.on.gen_value e (some b32_type))
    cond ← needed o
    build (cond_br cond.ref join_bb else_bb)

  abbrev pub enter : ℕ → Step (Unit {0})
  enter n = do position n; append_block n

  -- A loop from its first branch on.
  unfoldable pub gen_turns :
      Option Expr → OptStmt → Stmt → OptStmt → ℕ → ℕ → ℕ → ℕ → ℕ → Step (Unit {0})
  gen_turns e p s other_s loop_bb join_bb post_bb else_bb exit_bb = do
    build (br loop_bb)
    append_block loop_bb
    position loop_bb
    loop_test e join_bb else_bb
    enter join_bb
    run s
    build (br post_bb)
    enter post_bb
    run_opt p
    build (br loop_bb)
    enter else_bb
    run_opt other_s
    build (br exit_bb)
    enter exit_bb

  -- `AstForStmt`.
  unfoldable pub gen_for : OptStmt → Option Expr → OptStmt → Stmt → OptStmt → Step (Unit {0})
  gen_for i e p s other_s = do
    push_scope
    run_opt i
    loop_bb ← create_block
    join_bb ← create_block
    post_bb ← create_block
    else_bb ← create_block
    exit_bb ← create_block
    set_loop post_bb exit_bb
    gen_turns e p s other_s loop_bb join_bb post_bb else_bb exit_bb
    pop_scope

  -- `AstDeferStmt`.
  unfoldable pub gen_defer : Stmt → Step (Unit {0})
  gen_defer s = last_scope (λ c. record c { defers = c.defers ++ (s ∷ []) })

  -- The virtual call of `codegen`.
  unfoldable pub dispatch : Stmt → Step (Unit {0})
  dispatch (Stmt.block_stmt r ss) = gen_block ss
  dispatch (Stmt.return_stmt r e) = gen_return r e
  dispatch (Stmt.defer_stmt r s) = gen_defer s
  dispatch (Stmt.break_stmt r) = gen_break r
  dispatch (Stmt.continue_stmt r) = gen_continue r
  dispatch (Stmt.if_stmt r i e s other_s) = gen_if i e s other_s
  dispatch (Stmt.let_stmt r name e attrs) = gen_let u r name e attrs
  dispatch (Stmt.using_stmt r name e) = gen_using u r name e
  dispatch (Stmt.for_stmt r i e p s other_s) = gen_for i e p s other_s
  dispatch (Stmt.expr_stmt r e) = gen_expr u e
  dispatch (Stmt.assign_stmt r o dst src) = gen_assign u r o dst src

unfoldable pub gen_stmt : Unit_ → ℕ → Stmt → Step (Unit {0})
gen_stmt u zero s b = exhausted
gen_stmt u (suc fuel) s b = dispatch u (gen_stmt u fuel) s b
