-- ===== src/Parser/Lets.antt =====
-- A `let` statement over a tree of operators is read as it is meant.
use rox.Prelude.{ℕ, zero, suc, ◌<◌, ◌≡◌, refl, ◌∙◌, List, ◌∷◌, ap}
use rox.Ast.{Expr, expr_range, no_attrs}
use rox.Stmt.{Stmt, let_stmt}
use rox.Lexer.Char.{Bytes}
use rox.Lexer.Token.{Kind, Range, code}
use rox.Parser.State.{
  Parser, Lexed, M, ok, lexeme, include, ◌>>=◌, peek, next, expect, head_token, rest_tokens, pure,
}
use rox.Parser.Prec.{binary_prec_}
use rox.Parser.Calls.{Libc, Calls}
use rox.Parser.Run.{calls}
use rox.Parser.Post.{bind-ok}
use rox.Parser.Turns.{standing}
use rox.Parser.Tree.{Tree, first_token, others, build, IsGrouped, fuel_for}
use rox.Parser.Complete.{parse_expr-tree}
use rox.Parser.StmtParser.{StmtCalls, stmt_case, stmt_turn, parse_let_stmt}
use rox.Parser.StmtRun.{stmt_calls}

exprs-stmt_calls : (lc : Libc) (fuel : ℕ) → (stmt_calls lc fuel).exprs ≡ calls lc fuel
unfolding stmt_calls
exprs-stmt_calls lc zero = refl
exprs-stmt_calls lc (suc fuel) = refl

-- The rest of `parse_let_stmt`, from the expression on.
abbrev let_rest : Calls → Range → Bytes → M Stmt
let_rest c r x = c.parse_expr >>= λ init.
    expect Kind.semi "Expected ';' after 'let' statement" >>= λ _.
    pure (let_stmt (include r (expr_range init)) x init no_attrs)

let_head :
    (c : StmtCalls) (s : Parser) (r r' q : Range) (x x' y : Bytes) (u : Lexed) (ts : List Lexed)
    → stmt_turn c (record s {
      ahead = lexeme Kind.kw_let r x ∷ lexeme Kind.ident r' x' ∷ lexeme Kind.eq q y ∷ u ∷ ts;
    })
      ≡ let_rest c.exprs r x' (standing s (u ∷ ts) q)
unfolding stmt_turn stmt_case parse_let_stmt peek next expect ◌>>=◌ head_token rest_tokens code
let_head c s r r' q x x' y u ts = refl

let_tail :
    (init : Expr) (s : Parser) (r q : Range) (x y : Bytes) (u : Lexed) (ts : List Lexed)
    → (expect Kind.semi "Expected ';' after 'let' statement" >>= λ _.
          pure (let_stmt (include r (expr_range init)) x init no_attrs))
        (standing s (lexeme Kind.semi q y ∷ u ∷ ts) q)
      ≡ ok (let_stmt (include r (expr_range init)) x init no_attrs) (standing s (u ∷ ts) q)
unfolding peek next expect ◌>>=◌ head_token rest_tokens code
let_tail init s r q x y u ts = refl

-- For a tree of binary operators over variables that is grouped as precedence and left
-- associativity ask without parentheses, and enough fuel, `parse_stmt` reads `let`, a name, `=`,
-- the tokens of the tree and `;`, with a further token behind, as the `let` statement of that
-- name and the node of that tree, with its range, and stops behind the `;`.
pub parse_stmt-let :
    (lc : Libc) (fuel : ℕ) (s : Parser) (t : Tree) (r r' r'' q : Range) (x name z y : Bytes)
    (u : Lexed) (ts : List Lexed)
    → IsGrouped t
    → fuel_for t < fuel
    → (stmt_calls lc (suc fuel)).parse_stmt (record s {
      ahead =
          lexeme Kind.kw_let r x
          ∷ lexeme Kind.ident r' name
          ∷ lexeme Kind.eq r'' z
          ∷ first_token t
          ∷ others t (lexeme Kind.semi q y ∷ u ∷ ts);
    })
      ≡ ok
          (let_stmt (include r (expr_range (build t))) name (build t) no_attrs)
          (standing s (u ∷ ts) q)
unfolding stmt_calls binary_prec_
parse_stmt-let lc fuel s t r r' r'' q x name z y u ts g h =
    let rest = lexeme Kind.semi q y ∷ u ∷ ts in
    let_head (stmt_calls lc fuel) s r r' r'' x name z (first_token t) (others t rest)
    ∙ ap (λ c. let_rest c r name (standing s (first_token t ∷ others t rest) r''))
        (exprs-stmt_calls lc fuel)
    ∙ bind-ok (calls lc fuel).parse_expr _ _
        (parse_expr-tree lc fuel (standing s (u ∷ ts) r'') t Kind.semi q y (u ∷ ts) g refl refl h)
    ∙ let_tail (build t) s r q name y u ts
