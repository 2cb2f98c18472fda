-- ===== src/Parser/Turns.antt =====
-- Single turns of the expression loops over the tokens of a tree.
use rox.Prelude.{ℕ, zero, suc, ◌+◌, ◌≤◌, ◌<◌, ◌≡◌, refl, ◌∙◌, true, false, List, ◌∷◌, arith}
use rox.Ast.{Expr, var_expr, expr_range}
use rox.Lexer.Char.{Bytes}
use rox.Parser.Post.{bind-ok}
use rox.Lexer.Token.{code, Kind, Range}
use rox.Parser.State.{
  expect, Parser, Lexed, ok, lexeme, include, peek, next, ◌>>=◌, head_token, rest_tokens,
}
use rox.Parser.Prec.{binary_prec_, binary_prec, prec_below, prec_lt}
use rox.Parser.Calls.{Libc, Calls}
use rox.Parser.Expr.{
  postfix_case, postfix_turn, parse_var_expr, primary_case, parse_primary_expr, parse_postfix_expr,
  unary_case, unary_turn, binop_turn, tighter, binop_node, binop_operand,
}
use rox.Parser.Run.{calls}
use rox.Parser.Tree.{
  Op, op_kind, op_expr, op_prec, Tree, leaf, node, first, first_token, others, IsGrouped,
  no_postfix, binary_prec_-op, binop_node-op, binop_operand-op, no_postfix-op,
}

abbrev pub standing : Parser → List Lexed → Range → Parser
standing s ts r = record s { ahead = ts; this = r }

-- A variable with no postfix behind it.
unary_variable :
    (lc : Libc) (fuel : ℕ) (s : Parser) (r q : Range) (x y : Bytes) (k : Kind) (ts : List Lexed)
    → no_postfix k ≡ true
    → (calls lc (suc (suc fuel))).parse_unary_expr
        (record s { ahead = lexeme Kind.ident r x ∷ lexeme k q y ∷ ts })
      ≡ ok (var_expr r x) (standing s (lexeme k q y ∷ ts) q)
unfolding calls unary_turn unary_case parse_postfix_expr parse_primary_expr primary_case
    parse_var_expr expect peek next ◌>>=◌ head_token rest_tokens code postfix_turn postfix_case
unary_variable lc fuel s r q x y Kind.bang ts h = cc
unary_variable lc fuel s r q x y Kind.dot ts h = cc
unary_variable lc fuel s r q x y Kind.lbracket ts h = cc
unary_variable lc fuel s r q x y Kind.lparen ts h = cc
unary_variable lc fuel s r q x y _ ts h = refl

-- The loop stops in front of a token that binds more loosely than asked.
pub binop_stops :
    (lc : Libc) (fuel p : ℕ) (lhs : Expr) (s : Parser) (k : Kind) (q : Range) (y : Bytes)
    (ts : List Lexed)
    → 16 < p + binary_prec_ k
    → (calls lc (suc fuel)).parse_binop_rhs p lhs (record s { ahead = lexeme k q y ∷ ts })
      ≡ ok lhs (standing s (lexeme k q y ∷ ts) q)
unfolding calls binop_turn peek ◌>>=◌ head_token
binop_stops lc fuel p lhs s k q y ts h = ground arith

-- One turn over an operator: what is left once the tokens of the operator are read.
binop_turn-right :
    (c : Calls) (p : ℕ) (lhs : Expr) (s : Parser) (o : Op) (r : Range) (x : Bytes) (u : Lexed)
    (ts : List Lexed)
    → p ≤ op_prec o
    → binop_turn c p lhs (record s { ahead = lexeme (op_kind o) r x ∷ u ∷ ts })
      ≡ (binop_operand c (op_kind o) >>= λ rhs. tighter c (op_kind o) rhs >>= λ rhs'.
            binop_node (op_kind o) (include (include r (expr_range lhs)) (expr_range rhs')) lhs rhs'
            >>= λ e. c.parse_binop_rhs p e)
          (standing s (u ∷ ts) r)
unfolding binop_turn peek next ◌>>=◌ head_token rest_tokens
binop_turn-right c p lhs s o r x u ts h =
    let below : prec_below (op_kind o) p ≡ false = ground (arith, binary_prec_-op o) in rw below

-- One turn over an operator, given what the right operand comes to.
pub binop_turn-op :
    (c : Calls) (p : ℕ) (lhs rhs rhs' : Expr) (s s' s'' : Parser) (o : Op) (r : Range) (x : Bytes)
    (u : Lexed) (ts : List Lexed)
    → p ≤ op_prec o
    → c.parse_unary_expr (standing s (u ∷ ts) r) ≡ ok rhs s'
    → tighter c (op_kind o) rhs s' ≡ ok rhs' s''
    → binop_turn c p lhs (record s { ahead = lexeme (op_kind o) r x ∷ u ∷ ts })
      ≡ c.parse_binop_rhs p
          (op_expr o (include (include r (expr_range lhs)) (expr_range rhs')) lhs rhs')
          s''
binop_turn-op c p lhs rhs rhs' s s' s'' o r x u ts h e f =
    let operand : binop_operand c (op_kind o) (standing s (u ∷ ts) r) ≡ ok rhs s' =
      rw (binop_operand-op c o) e in
    binop_turn-right c p lhs s o r x u ts h
    ∙ bind-ok (binop_operand c (op_kind o)) _ (standing s (u ∷ ts) r) operand
    ∙ bind-ok (tighter c (op_kind o) rhs) _ s' f
    ∙ bind-ok
        (binop_node (op_kind o) (include (include r (expr_range lhs)) (expr_range rhs')) lhs rhs') _
        s'' (binop_node-op o _ lhs rhs' s'')

-- What stands behind the first token of a tree: what follows it, if that is all of the tree, or
-- else an operator that binds at least as tightly as the tree's own.
abbrev IsBehind : Tree → Kind → Kind → Type 0
IsBehind (leaf r x) k found = found ≡ k
IsBehind (node o r x a b) k found = binary_prec_ found + op_prec o ≤ 16

pub record Behind (t : Tree) (k : Kind) (q : Range) (y : Bytes) (ts : List Lexed) : Type 0 where
  pub kind : Kind
  pub range : Range
  pub text : Bytes
  pub more : List Lexed
  pub split : others t (lexeme k q y ∷ ts) ≡ lexeme kind range text ∷ more
  pub closed : no_postfix kind ≡ true
  pub behind : IsBehind t k kind

pub split_others :
    (t : Tree) (k : Kind) (q : Range) (y : Bytes) (ts : List Lexed)
    → IsGrouped t
    → no_postfix k ≡ true
    → Behind t k q y ts
split_others (leaf r x) k q y ts g h = record {
  kind = k;
  range = q;
  text = y;
  more = ts;
  split = refl;
  closed = h;
  behind = refl;
}
split_others (node o r x (leaf r' x') b) k q y ts g h = record {
  kind = op_kind o;
  range = r;
  text = x;
  more = first_token b ∷ others b (lexeme k q y ∷ ts);
  split = refl;
  closed = no_postfix-op o;
  behind = omega (arith, binary_prec_-op o);
}
split_others (node o r x (node o' r' x' a' b') b) k q y ts g h =
    let d =
      split_others (node o' r' x' a' b') (op_kind o) r x
        (first_token b ∷ others b (lexeme k q y ∷ ts)) g.1 (no_postfix-op o) in
    record {
      kind = d.kind;
      range = d.range;
      text = d.text;
      more = d.more;
      split = d.split;
      closed = d.closed;
      behind = omega (arith, d.behind, g.0.0);
    }

-- The first variable of a tree, read as an operand.
unary_first :
    (lc : Libc) (fuel : ℕ) (s : Parser) (t : Tree) (k : Kind) (q : Range) (y : Bytes)
    (ts : List Lexed)
    → (d : Behind t k q y ts)
    → (calls lc (suc (suc fuel))).parse_unary_expr
        (record s { ahead = first_token t ∷ others t (lexeme k q y ∷ ts) })
      ≡ ok (var_expr (first t).0 (first t).1) (standing s (others t (lexeme k q y ∷ ts)) d.range)
unary_first lc fuel s t k q y ts d =
    rw d.split
      (unary_variable lc fuel s (first t).0 d.range (first t).1 d.text d.kind d.more d.closed)

pub unary_tree :
    (lc : Libc) (fuel : ℕ) (s : Parser) (t : Tree) (k : Kind) (q : Range) (y : Bytes)
    (ts : List Lexed)
    → 2 ≤ fuel
    → (d : Behind t k q y ts)
    → (calls lc fuel).parse_unary_expr
        (record s { ahead = first_token t ∷ others t (lexeme k q y ∷ ts) })
      ≡ ok (var_expr (first t).0 (first t).1) (standing s (others t (lexeme k q y ∷ ts)) d.range)
unary_tree lc zero s t k q y ts n d = absurd (omega arith)
unary_tree lc (suc zero) s t k q y ts n d = absurd (omega arith)
unary_tree lc (suc (suc fuel)) s t k q y ts n d = unary_first lc fuel s t k q y ts d

pub tighter_no :
    (c : Calls) (o : Op) (e : Expr) (s : Parser) (k : Kind) (q : Range) (y : Bytes)
    (ts : List Lexed)
    → 16 ≤ op_prec o + binary_prec_ k
    → tighter c (op_kind o) e (record s { ahead = lexeme k q y ∷ ts })
      ≡ ok e (standing s (lexeme k q y ∷ ts) q)
unfolding tighter peek ◌>>=◌ head_token
tighter_no c o e s k q y ts h = ground (arith, binary_prec_-op o)

pub tighter_yes :
    (c : Calls) (o : Op) (e : Expr) (s : Parser) (k : Kind) (q : Range) (y : Bytes)
    (ts : List Lexed)
    → op_prec o + binary_prec_ k < 16
    → tighter c (op_kind o) e (record s { ahead = lexeme k q y ∷ ts })
      ≡ c.parse_binop_rhs (suc (op_prec o)) e (standing s (lexeme k q y ∷ ts) q)
unfolding tighter peek ◌>>=◌ head_token
tighter_yes c o e s k q y ts h =
    let lower : prec_lt (op_kind o) k ≡ true = ground (arith, binary_prec_-op o) in
    let next_prec : binary_prec (op_kind o) + 1 ≡ suc (op_prec o) =
      omega (arith, binary_prec_-op o) in
    rw (lower, next_prec)
