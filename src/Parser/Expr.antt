-- ===== src/Parser/Expr.antt =====
-- parser.cpp, expressions. `c` stands for the calls of the recursive functions and loops.
use rox.Prelude.{ℕ, ◌+◌, Bool, true, false, Option, none, some, if◌then◌else◌, codes, equal}
use rox.Ast.{
  Expr, Exprs, BinOp, LBinOp, UnaryOp, expr_range, type_range, no_exprs, more_exprs, tuple_expr,
  call_expr, type_expr, var_expr, selector_expr, agg_expr, typed_agg_expr, bin_expr, lbin_expr,
  unary_expr, index_expr, explode_expr, eff_expr, access_expr, cast_expr, test_expr, prop_expr,
}
use rox.Lexer.Token.{Kind, Range}
use rox.Parser.State.{M, ◌>>=◌, ◌>>◌, pure, fail, fail_at, is, peek, next, expect, include}
use rox.Parser.Prec.{prec_below, prec_lt, binary_prec}
use rox.Parser.Calls.{Calls}
use rox.Parser.Number.{
  parse_int_expr, parse_flt_expr, parse_chr_expr, parse_str_expr, parse_bool_expr,
}

-- One turn of the loop of `parse_tuple_expr`, up to the closing parenthesis.
unfoldable pub tuple_turn : Calls → M Exprs
tuple_turn c = do
  t ← peek
  if is Kind.rparen t then pure no_exprs else (do
    e ← c.parse_expr
    t ← peek
    if is Kind.comma t
        then (do
          next
          t ← peek
          if is Kind.rparen t
              then fail "Expected expression"
              else (do es ← c.tuple_loop; pure (more_exprs e es)))
        else pure (more_exprs e no_exprs))

unfoldable pub parse_tuple_expr : Calls → M Expr
parse_tuple_expr c = do
  beg ← expect Kind.lparen "Expected '('"
  es ← c.tuple_loop
  fin ← expect Kind.rparen "Expected ')' to terminate tuple expression"
  pure (tuple_expr (include beg.range fin.range) es)

unfoldable pub parse_index_expr : Calls → Expr → M Expr
parse_index_expr c operand = do
  beg ← expect Kind.lbracket "Expected '['"
  index ← c.parse_expr
  fin ← expect Kind.rbracket "Expected ']'"
  pure (index_expr (include beg.range fin.range) operand index)

-- A call of the variable `printf` is marked.
abbrev is_printf : Expr → Bool
is_printf (var_expr _ name) = equal name (codes "printf")
is_printf _ = false

unfoldable pub parse_call_expr : Calls → Expr → M Expr
parse_call_expr c operand = do
  args ← parse_tuple_expr c
  pure (call_expr (include (expr_range operand) (expr_range args)) operand args (is_printf operand))

unfoldable pub agg_turn : Calls → M Exprs
agg_turn c = do
  t ← peek
  if is Kind.rbrace t then pure no_exprs else (do
    e ← c.parse_expr
    t ← peek
    if is Kind.comma t
        then (do next; es ← c.agg_loop; pure (more_exprs e es))
        else pure (more_exprs e no_exprs))

-- `parse_agg_expr` behind its tests: the callers have seen the brace.
unfoldable pub agg_body : Calls → M (Range × Exprs)
agg_body c = do
  beg ← next
  es ← c.agg_loop
  fin ← expect Kind.rbrace "Expected '}'"
  pure (include beg.range fin.range, es)

-- The operand is null, a type, or another expression, which fails with no report.
unfoldable pub parse_agg_expr : Calls → Option Expr → M Expr
unfolding agg_body
parse_agg_expr c none = do (r, es) ← agg_body c; pure (agg_expr r es)
parse_agg_expr c (some (type_expr _ type)) = do
  (r, es) ← agg_body c
  pure (typed_agg_expr (include r (type_range type)) type es)
parse_agg_expr c (some _) = fail ""

unfoldable pub parse_type_expr : Calls → M Expr
parse_type_expr c = do type ← c.parse_type; pure (type_expr (type_range type) type)

unfoldable pub parse_var_expr : M Expr
parse_var_expr = do t ← expect Kind.ident "Expected identifier"; pure (var_expr t.range t.text)

unfoldable pub parse_selector_expr : M Expr
parse_selector_expr = do
  beg ← expect Kind.dot "Expected '.'"
  name ← expect Kind.ident "Expected identifier"
  pure (selector_expr (include beg.range name.range) name.text)

-- The switch of `parse_primary_expr`.
unfoldable pub primary_case : Calls → Kind → M Expr
primary_case c Kind.dot = parse_selector_expr
primary_case c Kind.kw_type = parse_var_expr
primary_case c Kind.ident = parse_var_expr
primary_case c Kind.kw_true = parse_bool_expr
primary_case c Kind.kw_false = parse_bool_expr
primary_case c Kind.lit_int = parse_int_expr c.libc
primary_case c Kind.lit_flt = parse_flt_expr c.libc
primary_case c Kind.lit_str = parse_str_expr
primary_case c Kind.lit_chr = parse_chr_expr
primary_case c Kind.lparen = parse_tuple_expr c
primary_case c Kind.kw_new = do next; parse_type_expr c
primary_case c Kind.lbrace = parse_agg_expr c none
primary_case c _ = fail "Unknown token '%S' in primary expression"

unfoldable pub parse_primary_expr : Calls → M Expr
parse_primary_expr c = do t ← peek; primary_case c t.kind

abbrev pub is_type_expr : Expr → Bool
is_type_expr (type_expr _ _) = true
is_type_expr _ = false

-- One turn of the loop of `parse_postfix_expr`.
unfoldable pub postfix_case : Calls → Expr → Kind → M Expr
postfix_case c operand Kind.dot = do
  next
  e ← parse_primary_expr c
  c.postfix_loop (access_expr (include (expr_range operand) (expr_range e)) operand e)
postfix_case c operand Kind.lbracket = do e ← parse_index_expr c operand; c.postfix_loop e
postfix_case c operand Kind.lparen = do e ← parse_call_expr c operand; c.postfix_loop e
postfix_case c operand Kind.lbrace =
    if is_type_expr operand
    then (do e ← parse_agg_expr c (some operand); c.postfix_loop e)
    else pure operand
postfix_case c operand _ = pure operand

unfoldable pub postfix_turn : Calls → Expr → M Expr
postfix_turn c operand = do t ← peek; postfix_case c operand t.kind

unfoldable pub parse_postfix_expr : Calls → M Expr
parse_postfix_expr c = do
  operand ← parse_primary_expr c
  t ← peek
  if is Kind.bang t
      then (do t ← next; c.postfix_loop (eff_expr (include (expr_range operand) t.range) operand))
      else c.postfix_loop operand

-- `token.range.include(operand->range())` under each of the unary operators.
unfoldable pub unary_node : Calls → (Range → Expr → Expr) → M Expr
unary_node c node = do
  t ← next
  operand ← c.parse_unary_expr
  pure (node (include t.range (expr_range operand)) operand)

unfoldable pub unary_case : Calls → Kind → M Expr
unary_case c Kind.bang = unary_node c (λ r e. unary_expr r UnaryOp.not e)
unary_case c Kind.minus = unary_node c (λ r e. unary_expr r UnaryOp.neg e)
unary_case c Kind.plus = do next; c.parse_unary_expr
unary_case c Kind.star = unary_node c (λ r e. unary_expr r UnaryOp.deref e)
unary_case c Kind.band = unary_node c (λ r e. unary_expr r UnaryOp.addrof e)
unary_case c Kind.ellipsis = unary_node c explode_expr
unary_case c _ = parse_postfix_expr c

unfoldable pub unary_turn : Calls → M Expr
unary_turn c = do t ← peek; unary_case c t.kind

-- The switch of `parse_binop_rhs` that builds the node.
unfoldable pub binop_node : Kind → Range → Expr → Expr → M Expr
binop_node Kind.kw_as r a b = pure (cast_expr r a b)
binop_node Kind.kw_is r a b = pure (test_expr r a b)
binop_node Kind.kw_of r a b = pure (prop_expr r a b)
binop_node Kind.star r a b = pure (bin_expr r BinOp.mul a b)
binop_node Kind.fslash r a b = pure (bin_expr r BinOp.div a b)
binop_node Kind.plus r a b = pure (bin_expr r BinOp.add a b)
binop_node Kind.minus r a b = pure (bin_expr r BinOp.sub a b)
binop_node Kind.lshift r a b = pure (bin_expr r BinOp.lshift a b)
binop_node Kind.rshift r a b = pure (bin_expr r BinOp.rshift a b)
binop_node Kind.lt r a b = pure (bin_expr r BinOp.lt a b)
binop_node Kind.lte r a b = pure (bin_expr r BinOp.le a b)
binop_node Kind.min r a b = pure (bin_expr r BinOp.min a b)
binop_node Kind.gt r a b = pure (bin_expr r BinOp.gt a b)
binop_node Kind.gte r a b = pure (bin_expr r BinOp.ge a b)
binop_node Kind.max r a b = pure (bin_expr r BinOp.max a b)
binop_node Kind.eqeq r a b = pure (bin_expr r BinOp.eq a b)
binop_node Kind.neq r a b = pure (bin_expr r BinOp.ne a b)
binop_node Kind.band r a b = pure (bin_expr r BinOp.band a b)
binop_node Kind.bor r a b = pure (bin_expr r BinOp.bor a b)
binop_node Kind.land r a b = pure (lbin_expr r LBinOp.land a b)
binop_node Kind.lor r a b = pure (lbin_expr r LBinOp.lor a b)
binop_node _ r a b = fail_at r "Unexpected token '%S' while parsing binary expression"

-- The right operand of `as` and `is` is a type.
unfoldable pub binop_operand : Calls → Kind → M Expr
binop_operand c Kind.kw_as = parse_type_expr c
binop_operand c Kind.kw_is = parse_type_expr c
binop_operand c _ = c.parse_unary_expr

-- What binds tighter than the operator k to its left goes to the right operand.
unfoldable pub tighter : Calls → Kind → Expr → M Expr
tighter c k rhs = do
  t ← peek
  if prec_lt k t.kind then c.parse_binop_rhs (binary_prec k + 1) rhs else pure rhs

-- One turn of the loop of `parse_binop_rhs`.
unfoldable pub binop_turn : Calls → ℕ → Expr → M Expr
binop_turn c expr_prec lhs = do
  p ← peek
  if prec_below p.kind expr_prec then pure lhs else (do
    t ← next
    rhs ← binop_operand c t.kind
    rhs ← tighter c t.kind rhs
    lhs ← binop_node t.kind (include (include t.range (expr_range lhs)) (expr_range rhs)) lhs rhs
    c.parse_binop_rhs expr_prec lhs)

unfoldable pub expr_turn : Calls → M Expr
expr_turn c = do lhs ← c.parse_unary_expr; c.parse_binop_rhs 0 lhs
