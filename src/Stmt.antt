-- ===== src/Stmt.antt =====
-- ast_stmt.h: the nodes of statements. A null `AstStmt*` inside a node is `no_stmt`.
use rox.Prelude.{Option}
use rox.Ast.{Expr, Attrs}
use rox.Lexer.Char.{Bytes}
use rox.Lexer.Token.{Range}

-- `AstAssignStmt::StoreOp`.
pub data StoreOp : Type 0 where
  wr add sub mul div : StoreOp

mutual
  pub data Stmt : Type 0 where
    block_stmt : Range → Stmts → Stmt
    return_stmt : Range → Option Expr → Stmt
    defer_stmt : Range → Stmt → Stmt
    break_stmt : Range → Stmt
    continue_stmt : Range → Stmt
    if_stmt : Range → OptStmt → Expr → Stmt → OptStmt → Stmt
    let_stmt : Range → Bytes → Expr → Attrs → Stmt
    using_stmt : Range → Bytes → Expr → Stmt
    for_stmt : Range → OptStmt → Option Expr → OptStmt → Stmt → OptStmt → Stmt
    expr_stmt : Range → Expr → Stmt
    assign_stmt : Range → StoreOp → Expr → Expr → Stmt

  pub data Stmts : Type 0 where
    no_stmts : Stmts
    more_stmts : Stmt → Stmts → Stmts

  pub data OptStmt : Type 0 where
    no_stmt : OptStmt
    a_stmt : Stmt → OptStmt

-- `AstNode::range`.
unfoldable pub stmt_range : Stmt → Range
stmt_range (block_stmt r _) = r
stmt_range (return_stmt r _) = r
stmt_range (defer_stmt r _) = r
stmt_range (break_stmt r) = r
stmt_range (continue_stmt r) = r
stmt_range (if_stmt r _ _ _ _) = r
stmt_range (let_stmt r _ _ _) = r
stmt_range (using_stmt r _ _) = r
stmt_range (for_stmt r _ _ _ _ _) = r
stmt_range (expr_stmt r _) = r
stmt_range (assign_stmt r _ _ _) = r
