-- ===== src/Parser/Run.antt =====
-- The parser's functions over one another, on fuel.
use rox.Prelude.{equal, Bool, ℕ, zero, suc, List}
use rox.Ast.{type_range, expr_range, Expr}
use rox.Lexer.Token.{is_end, code}
use rox.Parser.State.{
  include, expect, next, peek, rest_tokens, head_token, ◌>>=◌, Parser, Lexed, M, Result, no_fuel,
}
use rox.Parser.Calls.{Libc, Calls}
use rox.Parser.Expr.{
  tighter, binop_operand, binop_node, unary_case, unary_node, parse_postfix_expr, postfix_case,
  parse_primary_expr, primary_case, parse_selector_expr, parse_var_expr, parse_type_expr,
  parse_agg_expr, parse_call_expr, parse_index_expr, parse_tuple_expr, expr_turn, unary_turn,
  binop_turn, postfix_turn, tuple_turn, agg_turn,
}
use rox.Parser.TypeExpr.{
  union_of, types_range, type_case, at_case, after_member, parse_attrs, parse_attr, only_arg,
  parse_fn_type, parse_ret, parse_objs_args, parse_effects, parse_bracket_type, bracket_case,
  parse_array, parse_enum, parse_atom_type, parse_ptr_type, parse_varargs_type, parse_group_type,
  parse_args_type, parse_tuple_type, parse_elem, elem_name, parse_ident_type, type_turn,
  type_loop_turn, elems_turn, effects_turn, enums_turn, attrs_turn, no_range,
}
use rox.Parser.Prec.{binary_prec_}
use rox.Parser.Number.{
  parse_bool_expr, parse_str_expr, parse_chr_expr, parse_flt_expr, read_flt, flt_kind,
  parse_int_expr, read_int, int_value, suffix_kind, starts_with, filter_marks,
}

abbrev pub stuck : {A : Type 0} → M A
stuck s = no_fuel

abbrev pub stuck_calls : Libc → Calls
stuck_calls lc = record {
  libc = lc;
  parse_expr = stuck;
  parse_unary_expr = stuck;
  parse_binop_rhs = λ p e. stuck;
  postfix_loop = λ e. stuck;
  tuple_loop = stuck;
  agg_loop = stuck;
  parse_type = stuck;
  type_loop = λ a. stuck;
  elems_loop = λ k. stuck;
  effects_loop = stuck;
  enums_loop = stuck;
  attrs_loop = stuck;
}

abbrev pub turn_calls : Calls → Calls
turn_calls c = record {
  libc = c.libc;
  parse_expr = expr_turn c;
  parse_unary_expr = unary_turn c;
  parse_binop_rhs = binop_turn c;
  postfix_loop = postfix_turn c;
  tuple_loop = tuple_turn c;
  agg_loop = agg_turn c;
  parse_type = type_turn c;
  type_loop = type_loop_turn c;
  elems_loop = elems_turn c;
  effects_loop = effects_turn c;
  enums_loop = enums_turn c;
  attrs_loop = attrs_turn c;
}

unfoldable pub calls : Libc → ℕ → Calls
calls lc zero = stuck_calls lc
calls lc (suc fuel) = turn_calls (calls lc fuel)

abbrev pub start : List Lexed → Parser
start ts = record { ahead = ts; this = no_range; in_defer = Bool.false; errno = Bool.false }

-- An expression from a list of tokens: runs, for tests.
unfoldable pub run_expr : Libc → ℕ → List Lexed → Result Expr
unfolding expr_range type_range ◌>>=◌ head_token rest_tokens peek next expect include binary_prec_
    filter_marks starts_with suffix_kind int_value read_int parse_int_expr flt_kind read_flt
    parse_flt_expr parse_chr_expr parse_str_expr parse_bool_expr tuple_turn parse_tuple_expr
    parse_index_expr parse_call_expr agg_turn parse_agg_expr parse_type_expr parse_var_expr
    parse_selector_expr primary_case parse_primary_expr postfix_case postfix_turn parse_postfix_expr
    unary_node unary_case unary_turn binop_node binop_operand tighter binop_turn expr_turn
    parse_ident_type elem_name parse_elem elems_turn parse_tuple_type parse_args_type
    parse_group_type parse_varargs_type parse_ptr_type parse_atom_type enums_turn parse_enum
    parse_array bracket_case parse_bracket_type effects_turn parse_effects parse_objs_args parse_ret
    parse_fn_type only_arg parse_attr attrs_turn parse_attrs after_member at_case type_case
    type_loop_turn types_range union_of type_turn code is_end equal calls
run_expr lc fuel ts = (calls lc fuel).parse_expr (start ts)
