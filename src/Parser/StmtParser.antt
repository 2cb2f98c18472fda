-- ===== src/Parser/StmtParser.antt =====
-- parser.cpp, statements. `c` stands for the calls of the recursive functions and of the loop.
use rox.Prelude.{Bool, true, false, Option, none, some, if◌then◌else◌}
use rox.Ast.{Expr, Attrs, expr_range, no_attrs}
use rox.Stmt.{
  Stmt, Stmts, OptStmt, StoreOp, block_stmt, return_stmt, defer_stmt, break_stmt, continue_stmt,
  if_stmt, let_stmt, using_stmt, for_stmt, expr_stmt, assign_stmt, no_stmts, more_stmts, no_stmt,
  a_stmt, stmt_range,
}
use rox.Lexer.Token.{Kind, Range}
use rox.Parser.State.{M, ok, ◌>>=◌, ◌>>◌, pure, fail, is, peek, next, expect, include}
use rox.Parser.Calls.{Calls}
use rox.Parser.TypeExpr.{parse_attrs}

pub record StmtCalls : Type 0 where
  pub exprs : Calls
  pub parse_stmt : M Stmt
  pub parse_if_stmt : M Stmt
  pub stmts_loop : M Stmts

abbrev pub get_in_defer : M Bool
get_in_defer s = ok s.in_defer s

abbrev pub set_in_defer : Bool → M Bool
set_in_defer b s = ok b (record s { in_defer = b })

-- One turn of the loop of `parse_block_stmt`, up to the closing brace.
unfoldable pub stmts_turn : StmtCalls → M Stmts
stmts_turn c = do
  t ← peek
  if is Kind.rbrace t
      then pure no_stmts
      else (do stmt ← c.parse_stmt; rest ← c.stmts_loop; pure (more_stmts stmt rest))

unfoldable pub parse_block_stmt : StmtCalls → M Stmt
parse_block_stmt c = do
  beg ← expect Kind.lbrace "Expected '{'"
  stmts ← c.stmts_loop
  fin ← expect Kind.rbrace "Expected '}'"
  pure (block_stmt (include beg.range fin.range) stmts)

abbrev return_node : Range → Option Expr → Stmt
return_node r none = return_stmt r none
return_node r (some e) = return_stmt (include r (expr_range e)) (some e)

unfoldable pub opt_expr : Calls → Kind → M (Option Expr)
opt_expr c stop = do t ← peek; if is stop t then pure none else (do e ← c.parse_expr; pure (some e))

-- `parse_return_stmt` behind its tests.
unfoldable pub return_body : StmtCalls → M Stmt
return_body c = do
  beg ← next
  e ← opt_expr c.exprs Kind.semi
  expect Kind.semi "Expected ';' after return statement"
  pure (return_node beg.range e)

unfoldable pub parse_return_stmt : StmtCalls → M Stmt
parse_return_stmt c = do
  t ← peek
  if is Kind.kw_return t
      then (do
        in_defer ← get_in_defer
        if in_defer then fail "Cannot use 'return' inside 'defer'" else return_body c)
      else fail "Expected 'return'"

unfoldable pub parse_defer_stmt : StmtCalls → M Stmt
parse_defer_stmt c = do
  beg ← expect Kind.kw_defer "Expected 'defer'"
  set_in_defer true
  stmt ← c.parse_stmt
  set_in_defer false
  pure (defer_stmt (include beg.range (stmt_range stmt)) stmt)

unfoldable pub parse_break_stmt : M Stmt
parse_break_stmt = do
  t ← expect Kind.kw_break "Expected 'break'"
  expect Kind.semi "Expected ';' after break statement"
  pure (break_stmt t.range)

unfoldable pub parse_continue_stmt : M Stmt
parse_continue_stmt = do
  t ← expect Kind.kw_continue "Expected 'continue'"
  expect Kind.semi "Expected ';' after continue statement"
  pure (continue_stmt t.range)

unfoldable pub parse_let_stmt : StmtCalls → Attrs → M Stmt
parse_let_stmt c attrs = do
  beg ← expect Kind.kw_let "Expected 'let'"
  t ← expect Kind.ident "Expected identifier after 'let'"
  expect Kind.eq "Expected expression"
  init ← c.exprs.parse_expr
  expect Kind.semi "Expected ';' after 'let' statement"
  pure (let_stmt (include beg.range (expr_range init)) t.text init attrs)

unfoldable pub parse_using_stmt : StmtCalls → M Stmt
parse_using_stmt c = do
  beg ← expect Kind.kw_using "Expected 'using'"
  t ← expect Kind.ident "Expected identifier after 'using'"
  expect Kind.eq "Expected expression"
  init ← c.exprs.parse_expr
  expect Kind.semi "Expected ';' after 'using' statement"
  pure (using_stmt (include beg.range (expr_range init)) t.text init)

-- `LetStmt?`.
unfoldable pub opt_let : StmtCalls → M OptStmt
opt_let c = do
  t ← peek
  if is Kind.kw_let t
      then (do let_ ← parse_let_stmt c no_attrs; pure (a_stmt let_))
      else pure no_stmt

abbrev include_opt : Range → OptStmt → Range
include_opt r no_stmt = r
include_opt r (a_stmt stmt) = include r (stmt_range stmt)

-- What follows the block of an `if`.
unfoldable pub else_stmt : StmtCalls → M OptStmt
else_stmt c = do
  t ← peek
  if is Kind.kw_else t
      then (do
        next
        t ← peek
        if is Kind.kw_if t
            then (do stmt ← c.parse_if_stmt; pure (a_stmt stmt))
            else (do stmt ← parse_block_stmt c; pure (a_stmt stmt)))
      else pure no_stmt

unfoldable pub if_turn : StmtCalls → M Stmt
if_turn c = do
  beg ← expect Kind.kw_if "Expected 'if'"
  init ← opt_let c
  e ← c.exprs.parse_expr
  body ← parse_block_stmt c
  rest ← else_stmt c
  pure (
      if_stmt
        (include_opt
          (include (include (include_opt beg.range init) (expr_range e)) (stmt_range body)) rest)
        init e body rest)

-- An assignment, behind its left side, or the expression alone.
unfoldable pub stores : StmtCalls → Expr → StoreOp → M Stmt
stores c e op = do
  next
  value ← c.exprs.parse_expr
  pure (assign_stmt (include (expr_range e) (expr_range value)) op e value)

unfoldable pub assignment : StmtCalls → Expr → Kind → M Stmt
assignment c e Kind.eq = stores c e StoreOp.wr
assignment c e Kind.pluseq = stores c e StoreOp.add
assignment c e Kind.minuseq = stores c e StoreOp.sub
assignment c e Kind.stareq = stores c e StoreOp.mul
assignment c e Kind.fslasheq = stores c e StoreOp.div
assignment c e _ = pure (expr_stmt (expr_range e) e)

unfoldable pub parse_expr_stmt : StmtCalls → Bool → M Stmt
parse_expr_stmt c semi = do
  e ← c.exprs.parse_expr
  t ← peek
  stmt ← assignment c e t.kind
  if semi then (do expect Kind.semi "Expected ';' after expression"; pure stmt) else pure stmt

-- The statement behind the `;` in the head of a `for`.
unfoldable pub post_stmt : StmtCalls → M OptStmt
post_stmt c = do
  t ← peek
  if is Kind.semi t
      then (do
        next
        t ← peek
        if is Kind.lbrace t
            then fail "Expected expression statement"
            else (do stmt ← parse_expr_stmt c false; pure (a_stmt stmt)))
      else pure no_stmt

-- The `else` of a `for`.
unfoldable pub else_block : StmtCalls → M OptStmt
else_block c = do
  t ← peek
  if is Kind.kw_else t
      then (do next; stmt ← parse_block_stmt c; pure (a_stmt stmt))
      else pure no_stmt

unfoldable pub parse_for_stmt : StmtCalls → M Stmt
parse_for_stmt c = do
  beg ← expect Kind.kw_for "Expected 'for'"
  init ← opt_let c
  e ← opt_expr c.exprs Kind.lbrace
  post ← post_stmt c
  body ← parse_block_stmt c
  rest ← else_block c
  pure (for_stmt (include beg.range (stmt_range body)) init e post body rest)

-- `@` brings the attributes of a `let`.
unfoldable pub attr_let : StmtCalls → M Stmt
attr_let c = do
  next
  attrs ← parse_attrs c.exprs
  t ← peek
  if is Kind.kw_let t then parse_let_stmt c attrs else fail "Expected 'let' statement"

unfoldable pub stmt_case : StmtCalls → Kind → M Stmt
stmt_case c Kind.lbrace = parse_block_stmt c
stmt_case c Kind.kw_return = parse_return_stmt c
stmt_case c Kind.kw_defer = parse_defer_stmt c
stmt_case c Kind.kw_break = parse_break_stmt
stmt_case c Kind.kw_continue = parse_continue_stmt
stmt_case c Kind.kw_if = if_turn c
stmt_case c Kind.kw_let = parse_let_stmt c no_attrs
stmt_case c Kind.kw_using = parse_using_stmt c
stmt_case c Kind.kw_for = parse_for_stmt c
stmt_case c Kind.at = attr_let c
stmt_case c _ = parse_expr_stmt c true

unfoldable pub stmt_turn : StmtCalls → M Stmt
stmt_turn c = do t ← peek; stmt_case c t.kind
