-- ===== src/Parser/Enough.antt =====
-- How much fuel is enough for the parser's recursive functions, and the expressions: three units
-- for each token ahead that is not `END`, and up to three more.
use rox.Prelude.{ℕ, ◌+◌, ◌*◌, ◌≤◌, ◌<◌}
use rox.Ast.{Expr, Attrs}
use rox.Lexer.Token.{Kind}
use rox.Parser.State.{Parser, M}
use rox.Parser.Calls.{Calls}
use rox.Parser.Ends.{live, Ends, Down, Drop}

abbrev pub Runs : {A : Type 0} → ℕ → ℕ → M A → Type 0
Runs fuel rank m = (s : Parser) → 3 * live s.ahead + rank < fuel → Ends (Down s) (m s)

-- The calls return or report, if the fuel is enough for the tokens ahead.
pub record Fits (fuel : ℕ) (c : Calls) : Type 0 where
  pub expr : Runs fuel 1 c.parse_expr
  pub unary : Runs fuel 0 c.parse_unary_expr
  pub binop : (p : ℕ) (e : Expr) → Runs fuel 0 (c.parse_binop_rhs p e)
  pub postfix : (e : Expr) → Runs fuel 0 (c.postfix_loop e)
  pub tuple : Runs fuel 2 c.tuple_loop
  pub agg : Runs fuel 2 c.agg_loop
  pub type : Runs fuel 1 c.parse_type
  pub types : (a : Attrs) → Runs fuel 0 (c.type_loop a)
  pub elems : (k : Kind) → Runs fuel 2 (c.elems_loop k)
  pub effects : Runs fuel 0 c.effects_loop
  pub enums : Runs fuel 0 c.enums_loop
  pub attrs : Runs fuel 0 c.attrs_loop

-- Behind the first token of a function, there is fuel for every call.
abbrev pub Drops : {A : Type 0} → ℕ → M A → Type 0
Drops fuel m = (s : Parser) → 3 * live s.ahead ≤ fuel → Ends (Drop s) (m s)
