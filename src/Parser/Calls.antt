-- ===== src/Parser/Calls.antt =====
-- The functions and loops of the parser that are called recursively, each with one unit of fuel
-- less than its caller (`Run` ties them together), and the C library that literals are read with.
use rox.Prelude.{ℕ, Bool}
use rox.Ast.{Expr, Exprs, AstType, Types, Elems, Enums, Attrs}
use rox.Lexer.Char.{Bytes}
use rox.Lexer.Token.{Kind}
use rox.Parser.State.{M}

-- `strtoull(text, &end, base)`: its value, the text at `end`, and whether it sets `errno` to
-- ERANGE; and the text at `end` behind `strtod(text, &end)`.
pub record Libc : Type 0 where
  pub strtoull : Bytes → ℕ → ℕ × Bytes × Bool
  pub strtod_end : Bytes → Bytes

pub record Calls : Type 0 where
  pub libc : Libc
  pub parse_expr : M Expr
  pub parse_unary_expr : M Expr
  pub parse_binop_rhs : ℕ → Expr → M Expr
  pub postfix_loop : Expr → M Expr
  pub tuple_loop : M Exprs
  pub agg_loop : M Exprs
  pub parse_type : M AstType
  pub type_loop : Attrs → M (Types × Attrs)
  pub elems_loop : Kind → M Elems
  pub effects_loop : M Types
  pub enums_loop : M Enums
  pub attrs_loop : M Attrs
