-- ===== src/Tests/ParserTests.antt =====
-- Runs of the lexer and the parser on small sources.
use mathlib.Core.Option
use rox.Prelude.{ℕ, ◌+◌, ◌≡◌, refl, List, [], Option, none, some, codes, length, false}
use rox.Ast.{
  Expr, BinOp, bin_expr, lbin_expr, var_expr, cast_expr, type_expr, ident_type, tuple_expr,
  more_exprs, no_exprs,
}
use rox.Lexer.Char.{Bytes}
use rox.Lexer.Read.{lex}
use rox.Parser.State.{Lexed, Result, ok}
use rox.Parser.Run.{run_expr}
use rox.Parser.StmtRun.{run_stmt}
use rox.Prelude.{Bool, true}
use rox.Parser.Calls.{Libc}
use rox.Parser.Source.{source_tokens}

-- A C library that reads no number, for sources without any.
abbrev no_libc : Libc
no_libc = record { strtoull = λ bs b. (0, [], false); strtod_end = λ bs. [] }

-- The tree with names and operators only.
data Shape : Type 0 where
  name : Bytes → Shape
  node : ℕ → Shape → Shape → Shape
  other : Shape

abbrev bin_code : BinOp → ℕ
bin_code BinOp.mul = 1
bin_code BinOp.add = 2
bin_code _ = 3

abbrev shape : Expr → Shape
shape (var_expr _ n) = name n
shape (bin_expr _ op a b) = node (bin_code op) (shape a) (shape b)
shape (lbin_expr _ _ a b) = node 4 (shape a) (shape b)
shape (cast_expr _ a b) = node 5 (shape a) (shape b)
shape (type_expr _ (ident_type _ n _)) = name n
shape (tuple_expr _ (more_exprs e no_exprs)) = shape e
shape _ = other

abbrev shape_of : Result Expr → Option Shape
shape_of (ok e _) = some (shape e)
shape_of _ = none

abbrev tokens_of : Bytes → List Lexed
tokens_of bs = Option.get_or (source_tokens (length bs + 1) (record { bytes = bs; offset = 0 })) []

parsed : Bytes → Option Shape
unfolding source_tokens lex run_expr
parsed bs = shape_of (run_expr no_libc 20 (tokens_of bs))

abbrev v : Bytes → Shape
v n = name n

parsed-precedence :
    parsed (codes "a + b * c as T && (d - e) - f")
    ≡ some (
        node 4
          (node 2 (v (codes "a")) (node 1 (v (codes "b")) (node 5 (v (codes "c")) (v (codes "T")))))
          (node 3 (node 3 (v (codes "d")) (v (codes "e"))) (v (codes "f"))))
unfolding parsed
parsed-precedence = refl

-- A `return` in a `defer` is refused, but behind another `defer` in it, it is read.
parsed_stmt : Bytes → Bool
unfolding source_tokens lex run_stmt
parsed_stmt bs = elim (run_stmt no_libc 40 (tokens_of bs)) [ ok _ _ ↦ true | _ ↦ false ]

parsed_stmt-defer : parsed_stmt (codes "defer { return; }") ≡ false
unfolding parsed_stmt
parsed_stmt-defer = refl

parsed_stmt-defer_twice : parsed_stmt (codes "defer { defer f(); return; }") ≡ true
unfolding parsed_stmt
parsed_stmt-defer_twice = refl
