-- ===== src/Tests/ParserWitnesses.antt =====
-- The parser's theorems at concrete inputs.
use rox.Prelude.{◌<◌, false, ℕ, ◌≡◌, refl, arith, codes, List, [], ◌∷◌, some}
use rox.Ast.{no_attrs, var_expr, expr_range, BinOp}
use rox.Lexer.Token.{is_end, Kind, Range, end}
use rox.Parser.State.{include, Parser, Lexed, lexeme, ok}
use rox.Parser.Calls.{Libc}
use rox.Parser.Run.{calls, start}
use rox.Parser.Precedence.{Climbs}
use rox.Parser.Returns.{parse_expr-Ends}
use rox.Parser.Ends.{live, Ends}
use rox.Prelude.{◌≤◌, ◌*◌, ◌+◌, length}
use rox.Parser.Source.{source_tokens}
use rox.Parser.Tree.{Tree, leaf, node, arithmetic, build}
use rox.Parser.Complete.{parse_expr-tree}
use rox.Parser.StmtReturns.{parse_stmt-Ends}
use rox.Parser.UnitParser.{parse}
use rox.Parser.UnitReturns.{parse-source_tokens}
use rox.Parser.Lets.{parse_stmt-let}
use rox.Parser.StmtRun.{stmt_calls}
use rox.Stmt.{let_stmt}
use rox.Parser.Prec.{binary_prec_}

abbrev silent : Libc
silent = record { strtoull = λ bs b. (0, [], false); strtod_end = λ bs. [] }

abbrev span : ℕ → ℕ → Range
span a n = record { offset = a; length = n }

-- `a+b*c` and the end.
abbrev sum_tokens : List Lexed
sum_tokens =
    lexeme Kind.ident (span 0 1) (codes "a")
    ∷ lexeme Kind.plus (span 1 1) (codes "+")
    ∷ lexeme Kind.ident (span 2 1) (codes "b")
    ∷ lexeme Kind.star (span 3 1) (codes "*")
    ∷ lexeme Kind.ident (span 4 1) (codes "c")
    ∷ lexeme end (span 5 0) []
    ∷ []

abbrev sum_tree : Tree
sum_tree = node (arithmetic BinOp.add) (span 1 1) (codes "+") (leaf (span 0 1) (codes "a")) (
    node (arithmetic BinOp.mul) (span 3 1) (codes "*") (leaf (span 2 1) (codes "b"))
      (leaf (span 4 1) (codes "c")))

abbrev at_end : Parser
at_end = record (start []) { ahead = lexeme end (span 5 0) [] ∷ []; this = span 5 0 }

parse_expr-tree_example :
    (calls silent 30).parse_expr (start sum_tokens) ≡ ok (build sum_tree) at_end
unfolding binary_prec_
parse_expr-tree_example =
    parse_expr-tree silent 30 (start []) sum_tree end (span 5 0) [] []
      ((omega arith, omega arith), tt, ((omega arith, omega arith), tt, tt)) refl refl (omega arith)

parse_expr-Ends_example :
    Ends
      (λ e s'. Climbs e × live s'.ahead ≤ live sum_tokens)
      ((calls silent 17).parse_expr (start sum_tokens))
unfolding live is_end
parse_expr-Ends_example = parse_expr-Ends silent 17 (start sum_tokens) (omega arith)

-- `{a` is a tuple type that is not closed.
abbrev open_tokens : List Lexed
open_tokens =
    lexeme Kind.lbrace (span 0 1) (codes "{")
    ∷ lexeme Kind.ident (span 1 1) (codes "a")
    ∷ lexeme end (span 2 0) []
    ∷ []

-- `break` without its semicolon.
abbrev break_tokens : List Lexed
break_tokens = lexeme Kind.kw_break (span 0 5) (codes "break") ∷ lexeme end (span 5 0) [] ∷ []

parse_stmt-Ends_example :
    Ends
      (λ e s'. live s'.ahead < live break_tokens)
      ((stmt_calls silent 6).parse_stmt (start break_tokens))
unfolding live is_end
parse_stmt-Ends_example = parse_stmt-Ends silent 6 (start break_tokens) (omega arith)

-- `let x = a;` in front of the end.
parse_stmt-let_example :
    (stmt_calls silent 9).parse_stmt (record (start []) {
      ahead =
          lexeme Kind.kw_let (span 0 3) (codes "let")
          ∷ lexeme Kind.ident (span 4 1) (codes "x")
          ∷ lexeme Kind.eq (span 6 1) (codes "=")
          ∷ lexeme Kind.ident (span 8 1) (codes "a")
          ∷ lexeme Kind.semi (span 9 1) (codes ";")
          ∷ lexeme end (span 10 0) []
          ∷ [];
    })
    ≡ ok
        (let_stmt
          (include (span 0 3) (span 8 1))
          (codes "x")
          (var_expr (span 8 1) (codes "a"))
          no_attrs)
        (record (start []) { ahead = lexeme end (span 10 0) [] ∷ []; this = span 9 1 })
unfolding expr_range
parse_stmt-let_example =
    parse_stmt-let silent 8 (start []) (leaf (span 8 1) (codes "a")) (span 0 3) (span 4 1)
      (span 6 1) (span 9 1) (codes "let") (codes "x") (codes "=") (codes ";")
      (lexeme end (span 10 0) []) [] tt (omega arith)

-- `module` without a name.
abbrev module_tokens : List Lexed
module_tokens = lexeme Kind.kw_module (span 0 6) (codes "module") ∷ lexeme end (span 6 0) [] ∷ []

parse-source_tokens_example :
    (ts : List Lexed) × (source_tokens 12 (record { bytes = codes "type T = U;"; offset = 0 })
      ≡ some ts)
    × Ends (λ u s'. live s'.ahead ≤ live ts) (parse silent (3 * length ts + 3) (start ts))
parse-source_tokens_example = parse-source_tokens silent (codes "type T = U;")
