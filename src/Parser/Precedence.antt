-- ===== src/Parser/Precedence.antt =====
-- `parse_binop_rhs` is precedence climbing: the tree that it builds groups operators by
-- `binary_prec`, the tighter ones below, and equal ones to the left.
use rox.Prelude.{ℕ, ◌+◌, ◌≤◌, ◌<◌, ◌≡◌}
use rox.Ast.{Expr, BinOp, LBinOp, bin_expr, lbin_expr, cast_expr, test_expr, prop_expr}
use rox.Lexer.Token.{Kind}
use rox.Parser.State.{Parser, head_token}
use rox.Parser.Prec.{binary_prec_}
use rox.Parser.Calls.{Calls}
use rox.Parser.Post.{Post, Always}

-- How tightly an operator of the tree binds, from `||` to `*`; and, for `top`, any expression, where
-- one that is no binary node binds tightest.
abbrev pub bin_prec : BinOp → ℕ
bin_prec BinOp.mul = 11
bin_prec BinOp.div = 11
bin_prec BinOp.add = 10
bin_prec BinOp.sub = 10
bin_prec BinOp.lshift = 9
bin_prec BinOp.rshift = 9
bin_prec BinOp.lt = 7
bin_prec BinOp.le = 7
bin_prec BinOp.min = 7
bin_prec BinOp.gt = 7
bin_prec BinOp.ge = 7
bin_prec BinOp.max = 7
bin_prec BinOp.eq = 6
bin_prec BinOp.ne = 6
bin_prec BinOp.band = 5
bin_prec BinOp.bor = 3

abbrev pub lbin_prec : LBinOp → ℕ
lbin_prec LBinOp.land = 2
lbin_prec LBinOp.lor = 1

abbrev pub top : Expr → ℕ
top (bin_expr _ op _ _) = bin_prec op
top (lbin_expr _ op _ _) = lbin_prec op
top (cast_expr _ _ _) = 12
top (test_expr _ _ _) = 12
top (prop_expr _ _ _) = 12
top _ = 17

-- A node of precedence p over two operands: the left one binds at least as tightly, the right one
-- more tightly.
abbrev pub Grouped : ℕ → Expr → Expr → Type 0
Grouped p a b = (p ≤ top a) × (p < top b)

-- All binary nodes, down to the operands that are no binary nodes.
abbrev pub Climbs : Expr → Type 0
Climbs (bin_expr _ op a b) = Grouped (bin_prec op) a b × Climbs a × Climbs b
Climbs (lbin_expr _ op a b) = Grouped (lbin_prec op) a b × Climbs a × Climbs b
Climbs (cast_expr _ a b) = Grouped 12 a b × Climbs a × Climbs b
Climbs (test_expr _ a b) = Grouped 12 a b × Climbs a × Climbs b
Climbs (prop_expr _ a b) = Grouped 12 a b × Climbs a × Climbs b
Climbs _ = Unit

abbrev pub Atom : Expr → Type 0
Atom e = (top e ≡ 17) × Climbs e

abbrev pub IsAtom : Expr → Parser → Type 0
IsAtom e _ = Atom e

-- The token that the parser stands at.
abbrev pub at_kind : Parser → Kind
at_kind s = (head_token s.ahead).kind

-- Before a call of `parse_binop_rhs`: the operator ahead does not bind tighter than the left
-- operand. After it: the operator ahead binds more loosely than asked.
pub record Entry (p : ℕ) (lhs : Expr) (s : Parser) : Type 0 where
  pub climbs : Climbs lhs
  pub bound : p ≤ top lhs
  pub ahead : 16 ≤ top lhs + binary_prec_ (at_kind s)

pub record Exit (p : ℕ) (e : Expr) (s : Parser) : Type 0 where
  pub climbs : Climbs e
  pub bound : p ≤ top e
  pub ahead : 16 < p + binary_prec_ (at_kind s)

-- What the recursive calls promise.
pub record Groups (c : Calls) : Type 0 where
  pub unary : Always IsAtom c.parse_unary_expr
  pub postfix : (e : Expr) → Atom e → Always IsAtom (c.postfix_loop e)
  pub binop :
      (p : ℕ) (lhs : Expr) (s : Parser) → Entry p lhs s → Post (Exit p) (c.parse_binop_rhs p lhs s)
  pub expr : Always (λ e _. Climbs e) c.parse_expr
