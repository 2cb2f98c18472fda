-- ===== src/Parser/Complete.antt =====
-- The parser reads every grouped tree back.
use rox.Prelude.{ℕ, zero, suc, ◌+◌, ◌-◌, ◌≤◌, ◌<◌, ◌≡◌, refl, ◌∙◌, true, List, [], ◌∷◌, arith}
use rox.Ast.{Expr, var_expr}
use rox.Lexer.Char.{Bytes}
use rox.Parser.Post.{bind-ok}
use rox.Lexer.Token.{Kind, Range}
use rox.Parser.State.{Parser, Lexed, ok, lexeme, peek, ◌>>=◌, head_token}
use rox.Parser.Prec.{binary_prec_}
use rox.Parser.Calls.{Libc}
use rox.Parser.Expr.{expr_turn, binop_turn, tighter}
use rox.Parser.Run.{calls}
use rox.Parser.Tree.{
  fuel_for, Op, op_kind, op_prec, Tree, leaf, node, first, first_token, others, build, tree_prec,
  IsGrouped, no_postfix, spine, need, binary_prec_-op, no_postfix-op,
}
use rox.Parser.Turns.{
  binop_stops, tighter_yes, binop_turn-op, tighter_no, unary_tree, split_others, standing,
}

-- The loop does not read the current token.
binop_restand :
    (lc : Libc) (fuel p : ℕ) (lhs : Expr) (s : Parser) (k : Kind) (q : Range) (y : Bytes)
    (ts : List Lexed)
    → 1 ≤ fuel
    → (calls lc fuel).parse_binop_rhs p lhs (record s { ahead = lexeme k q y ∷ ts })
      ≡ (calls lc fuel).parse_binop_rhs p lhs (standing s (lexeme k q y ∷ ts) q)
unfolding calls binop_turn peek ◌>>=◌ head_token
binop_restand lc zero p lhs s k q y ts h = absurd (omega arith)
binop_restand lc (suc fuel) p lhs s k q y ts h = refl

need_pos : (t : Tree) → 3 ≤ need t
need_pos (leaf r x) = omega arith
need_pos (node o r x a b) = omega (arith, need_pos a)

-- The loop over a tree comes to the tree's node, in front of what binds no tighter.
abbrev Climb : Libc → Tree → Type 0
Climb lc t =
    (fuel g p : ℕ) (s : Parser) (k : Kind) (q : Range) (y : Bytes) (ts : List Lexed)
    → g ≡ spine t + fuel
    → no_postfix k ≡ true
    → p ≤ tree_prec t
    → 16 ≤ tree_prec t + binary_prec_ k
    → need t ≤ fuel
    → (calls lc g).parse_binop_rhs p (var_expr (first t).0 (first t).1)
        (record s { ahead = others t (lexeme k q y ∷ ts) })
      ≡ (calls lc fuel).parse_binop_rhs p (build t) (standing s (lexeme k q y ∷ ts) q)

-- What the right operand comes to.
tighter_tree :
    (lc : Libc) (b : Tree)
    → Climb lc b
    → (fuel : ℕ) (o : Op) (s : Parser) (k : Kind) (q : Range) (y : Bytes) (ts : List Lexed)
    → IsGrouped b
    → no_postfix k ≡ true
    → op_prec o < tree_prec b
    → 16 ≤ op_prec o + binary_prec_ k
    → spine b + need b ≤ fuel
    → tighter
        (calls lc fuel)
        (op_kind o)
        (var_expr (first b).0 (first b).1)
        (record s { ahead = others b (lexeme k q y ∷ ts) })
      ≡ ok (build b) (standing s (lexeme k q y ∷ ts) q)
tighter_tree lc (leaf r x) climb fuel o s k q y ts g h below after n =
    tighter_no (calls lc fuel) o (var_expr r x) s k q y ts after
tighter_tree lc (node o' r x a b) climb fuel o s k q y ts g h below after n =
    let t = node o' r x a b in
    let d = split_others t k q y ts g h in
    let left = fuel - (spine t + 1) in
    let grow =
      climb (suc left) fuel (suc (op_prec o)) (standing s [] d.range) k q y ts
        (omega (arith, need_pos t)) h below (omega (arith, after, below)) (omega (arith, n)) in
    rw d.split (
      tighter_yes (calls lc fuel) o (var_expr (first t).0 (first t).1) s d.kind d.range d.text
        d.more (omega (arith, d.behind, binary_prec_-op o))
      ∙ (rw d.split at grow)
      ∙ binop_stops lc left (suc (op_prec o)) (build t) (standing s [] q) k q y ts (omega arith))

binop_again :
    (lc : Libc) (fuel p : ℕ) (lhs : Expr) (s : Parser)
    → (calls lc (suc fuel)).parse_binop_rhs p lhs s ≡ binop_turn (calls lc fuel) p lhs s
unfolding calls
binop_again lc fuel p lhs s = refl

Climb-tree : (lc : Libc) (t : Tree) → IsGrouped t → Climb lc t
Climb-tree lc (leaf r x) g fuel gas p s k q y ts e h low after n =
    let same : gas ≡ fuel = omega (arith, e) in
    rw same (binop_restand lc fuel p (var_expr r x) s k q y ts (omega arith))
Climb-tree lc (node o r x a b) g fuel gas p s k q y ts e h low after n =
    let rest = lexeme k q y ∷ ts in
    let d = split_others b k q y ts g.2 h in
    let c = calls lc fuel in
    Climb-tree lc a g.1 (suc fuel) gas p s (op_kind o) r x (first_token b ∷ others b rest)
      (omega arith) (no_postfix-op o) (omega (arith, g.0.0))
      (omega (arith, g.0.0, binary_prec_-op o)) (omega (arith, n))
    ∙ binop_again lc fuel p (build a) _
    ∙ binop_turn-op c p (build a) (var_expr (first b).0 (first b).1) (build b) (standing s [] r)
        (standing s (others b rest) d.range) (standing s rest q) o r x (first_token b)
        (others b rest) low
        (unary_tree lc fuel (standing s [] r) b k q y ts (omega (arith, need_pos a, n)) d)
        (tighter_tree lc b (Climb-tree lc b g.2) fuel o (standing s [] d.range) k q y ts g.2 h g.0.1
          after (omega (arith, n)))

-- For a tree of binary operators over variables that is grouped as precedence and left
-- associativity ask without parentheses, `parse_expr`, given the tree's tokens and then a token
-- that neither continues an operand nor is an operator, and enough fuel, returns exactly the
-- node for that tree, with its ranges, and stands in front of that token with the rest of the
-- tokens untouched.
pub parse_expr-tree :
    (lc : Libc) (fuel : ℕ) (s : Parser) (t : Tree) (k : Kind) (q : Range) (y : Bytes)
    (ts : List Lexed)
    → IsGrouped t
    → no_postfix k ≡ true
    → binary_prec_ k ≡ 17
    → fuel_for t < fuel
    → (calls lc fuel).parse_expr (record s { ahead = first_token t ∷ others t (lexeme k q y ∷ ts) })
      ≡ ok (build t) (standing s (lexeme k q y ∷ ts) q)
unfolding calls expr_turn
parse_expr-tree lc zero s t k q y ts g h e n = absurd (omega arith)
parse_expr-tree lc (suc fuel) s t k q y ts g h e n =
    let d = split_others t k q y ts g h in
    let left = fuel - spine t - 1 in
    bind-ok (calls lc fuel).parse_unary_expr _ _
      (unary_tree lc fuel s t k q y ts (omega (arith, need_pos t)) d)
    ∙ Climb-tree lc t g (suc left) fuel 0 (standing s [] d.range) k q y ts (omega (arith, n)) h
        (omega arith) (omega (arith, e)) (omega (arith, n))
    ∙ binop_stops lc left 0 (build t) (standing s [] q) k q y ts (omega (arith, e))
