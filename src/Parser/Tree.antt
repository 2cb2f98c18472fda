-- ===== src/Parser/Tree.antt =====
-- Operator trees over variables, as the grammar means them: their tokens, their nodes, and when
-- they are grouped as their tokens say with no parentheses.
use rox.Prelude.{ℕ, suc, ◌+◌, ◌≤◌, ◌<◌, ◌≡◌, refl, Bool, true, false, List, ◌∷◌}
use rox.Ast.{Expr, BinOp, LBinOp, bin_expr, lbin_expr, var_expr, expr_range}
use rox.Lexer.Char.{Bytes}
use rox.Lexer.Token.{Kind, Range}
use rox.Parser.State.{Parser, Lexed, ok, lexeme, include}
use rox.Parser.Prec.{binary_prec_}
use rox.Parser.Calls.{Calls}
use rox.Parser.Expr.{binop_node, binop_operand}
use rox.Parser.Precedence.{bin_prec, lbin_prec}

pub data Op : Type 0 where
  arithmetic : BinOp → Op
  logical : LBinOp → Op

abbrev pub op_kind : Op → Kind
op_kind (arithmetic BinOp.mul) = Kind.star
op_kind (arithmetic BinOp.div) = Kind.fslash
op_kind (arithmetic BinOp.add) = Kind.plus
op_kind (arithmetic BinOp.sub) = Kind.minus
op_kind (arithmetic BinOp.lshift) = Kind.lshift
op_kind (arithmetic BinOp.rshift) = Kind.rshift
op_kind (arithmetic BinOp.lt) = Kind.lt
op_kind (arithmetic BinOp.le) = Kind.lte
op_kind (arithmetic BinOp.min) = Kind.min
op_kind (arithmetic BinOp.gt) = Kind.gt
op_kind (arithmetic BinOp.ge) = Kind.gte
op_kind (arithmetic BinOp.max) = Kind.max
op_kind (arithmetic BinOp.eq) = Kind.eqeq
op_kind (arithmetic BinOp.ne) = Kind.neq
op_kind (arithmetic BinOp.band) = Kind.band
op_kind (arithmetic BinOp.bor) = Kind.bor
op_kind (logical LBinOp.land) = Kind.land
op_kind (logical LBinOp.lor) = Kind.lor

abbrev pub op_expr : Op → Range → Expr → Expr → Expr
op_expr (arithmetic o) r a b = bin_expr r o a b
op_expr (logical o) r a b = lbin_expr r o a b

abbrev pub op_prec : Op → ℕ
op_prec (arithmetic o) = bin_prec o
op_prec (logical o) = lbin_prec o

pub binary_prec_-op : (o : Op) → binary_prec_ (op_kind o) + op_prec o ≡ 16
unfolding binary_prec_
binary_prec_-op (arithmetic BinOp.mul) = refl
binary_prec_-op (arithmetic _) = refl
binary_prec_-op (logical LBinOp.land) = refl
binary_prec_-op (logical _) = refl

pub binop_node-op :
    (o : Op) (r : Range) (a b : Expr) (s : Parser)
    → binop_node (op_kind o) r a b s ≡ ok (op_expr o r a b) s
unfolding binop_node
binop_node-op (arithmetic BinOp.mul) r a b s = refl
binop_node-op (arithmetic _) r a b s = refl
binop_node-op (logical LBinOp.land) r a b s = refl
binop_node-op (logical _) r a b s = refl

pub binop_operand-op : (c : Calls) (o : Op) → binop_operand c (op_kind o) ≡ c.parse_unary_expr
unfolding binop_operand
binop_operand-op c (arithmetic BinOp.mul) = refl
binop_operand-op c (arithmetic _) = refl
binop_operand-op c (logical LBinOp.land) = refl
binop_operand-op c (logical _) = refl

-- A variable with its token's range and text, or an operator with its token's.
pub data Tree : Type 0 where
  leaf : Range → Bytes → Tree
  node : Op → Range → Bytes → Tree → Tree → Tree

-- The first token, and the others in front of `rest`.
abbrev pub first : Tree → Range × Bytes
first (leaf r x) = (r, x)
first (node o r x a b) = first a

abbrev pub first_token : Tree → Lexed
first_token t = lexeme Kind.ident (first t).0 (first t).1

abbrev pub others : Tree → List Lexed → List Lexed
others (leaf r x) rest = rest
others (node o r x a b) rest = others a (lexeme (op_kind o) r x ∷ first_token b ∷ others b rest)

-- The expression that the tree stands for, with the ranges that the nodes cover.
abbrev pub build : Tree → Expr
build (leaf r x) = var_expr r x
build (node o r x a b) =
    op_expr o (include (include r (expr_range (build a))) (expr_range (build b))) (build a)
      (build b)

abbrev pub tree_prec : Tree → ℕ
tree_prec (leaf r x) = 17
tree_prec (node o r x a b) = op_prec o

-- Equal operators group to the left, and tighter ones stand below looser ones.
abbrev pub IsGrouped : Tree → Type 0
IsGrouped (leaf r x) = Unit
IsGrouped (node o r x a b) =
    ((op_prec o ≤ tree_prec a) × (op_prec o < tree_prec b)) × IsGrouped a × IsGrouped b

-- A token that continues no operand.
abbrev pub no_postfix : Kind → Bool
no_postfix Kind.bang = false
no_postfix Kind.dot = false
no_postfix Kind.lbracket = false
no_postfix Kind.lparen = false
no_postfix _ = true

pub no_postfix-op : (o : Op) → no_postfix (op_kind o) ≡ true
no_postfix-op (arithmetic BinOp.mul) = refl
no_postfix-op (arithmetic _) = refl
no_postfix-op (logical LBinOp.land) = refl
no_postfix-op (logical _) = refl

-- The turns of the loop of `parse_binop_rhs` over a tree, and the fuel that has to be left then.
abbrev pub spine : Tree → ℕ
spine (leaf r x) = 0
spine (node o r x a b) = suc (spine a)

abbrev pub need : Tree → ℕ
need (leaf r x) = 3
need (node o r x a b) = need a + (spine b + need b)

abbrev pub fuel_for : Tree → ℕ
fuel_for t = suc (spine t + need t)
