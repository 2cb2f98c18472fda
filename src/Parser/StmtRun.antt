-- ===== src/Parser/StmtRun.antt =====
-- The parser's functions on statements over one another, on fuel.
use rox.Prelude.{ℕ, zero, suc}
use rox.Parser.Calls.{Libc}
use rox.Parser.Run.{calls, stuck}
use rox.Prelude.{List}
use rox.Parser.State.{Lexed, Result}
use rox.Parser.Run.{start, run_expr}
use rox.Stmt.{Stmt, stmt_range}
use rox.Parser.StmtParser.{
  StmtCalls, stmts_turn, parse_block_stmt, opt_expr, return_body, parse_return_stmt,
  parse_defer_stmt, parse_break_stmt, parse_continue_stmt, parse_let_stmt, parse_using_stmt,
  opt_let, else_stmt, if_turn, stores, assignment, parse_expr_stmt, post_stmt, else_block,
  parse_for_stmt, attr_let, stmt_case, stmt_turn,
}

unfoldable pub stmt_calls : Libc → ℕ → StmtCalls
stmt_calls lc zero = record {
  exprs = calls lc zero;
  parse_stmt = stuck;
  parse_if_stmt = stuck;
  stmts_loop = stuck;
}
stmt_calls lc (suc fuel) =
    let c = stmt_calls lc fuel in
    record {
      exprs = calls lc (suc fuel);
      parse_stmt = stmt_turn c;
      parse_if_stmt = if_turn c;
      stmts_loop = stmts_turn c;
    }

-- A statement from a list of tokens: runs, for tests.
unfoldable pub run_stmt : Libc → ℕ → List Lexed → Result Stmt
unfolding stmt_range stmts_turn parse_block_stmt opt_expr return_body parse_return_stmt
    parse_defer_stmt parse_break_stmt parse_continue_stmt parse_let_stmt parse_using_stmt opt_let
    else_stmt if_turn stores assignment parse_expr_stmt post_stmt else_block parse_for_stmt attr_let
    stmt_case stmt_turn stmt_calls run_expr
run_stmt lc fuel ts = (stmt_calls lc fuel).parse_stmt (start ts)
