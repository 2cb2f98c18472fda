-- ===== src/Parser/TypeExpr.antt =====
-- parser.cpp, types and attributes.
use rox.Parser.State.{refuse}
use rox.Prelude.{Bool, if◌then◌else◌, codes, equal, ◌||◌}
use rox.Ast.{
  Expr, AstType, Types, Elems, Args, Enums, Attrs, expr_range, type_range, no_exprs, more_exprs,
  tuple_expr, infer_size_expr, tuple_type, group_type, union_type, ident_type, varargs_type,
  ptr_type, array_type, atom_type, enum_type, fn_type, no_types, more_types, no_elems, elem,
  named_elem, args_type, no_enums, enumerator, init_enumerator, no_attrs, more_attrs,
}
use rox.Lexer.Char.{Bytes}
use rox.Lexer.Token.{Kind, Range}
use rox.Parser.State.{M, ◌>>=◌, ◌>>◌, pure, fail, fail_at, is, peek, next, expect, include}
use rox.Parser.Calls.{Calls}
use rox.Parser.Expr.{parse_tuple_expr}

abbrev pub no_range : Range
no_range = record { offset = 0; length = 0 }

unfoldable pub parse_ident_type : Attrs → M AstType
parse_ident_type attrs = do
  t ← expect Kind.ident "Expected identifier"
  pure (ident_type t.range t.text attrs)

-- An element that is named must have been read as an identifier.
unfoldable pub elem_name : AstType → M Bytes
elem_name (ident_type _ name _) = pure name
elem_name type = fail_at (type_range type) "Expected identifier"

-- One element of a tuple or an argument list, as a function that puts it before the others.
unfoldable pub parse_elem : Calls → M (Elems → Elems)
parse_elem c = do
  type ← c.parse_type
  t ← peek
  if is Kind.colon t
      then (do name ← elem_name type; next; type ← c.parse_type; pure (named_elem name type))
      else pure (elem type)

-- One turn of the loops of `parse_tuple_type` and `parse_args_type`, up to the closing token.
unfoldable pub elems_turn : Calls → Kind → M Elems
elems_turn c close = do
  t ← peek
  if is close t then pure no_elems else (do
    put ← parse_elem c
    t ← peek
    if is Kind.comma t
        then (do next; es ← c.elems_loop close; pure (put es))
        else pure (put no_elems))

unfoldable pub parse_tuple_type : Calls → Attrs → M AstType
parse_tuple_type c attrs = do
  beg ← expect Kind.lbrace "Expected '{'"
  es ← c.elems_loop Kind.rbrace
  fin ← expect Kind.rbrace "Expected '}' to terminate tuple type"
  pure (tuple_type (include beg.range fin.range) es attrs)

unfoldable pub parse_args_type : Calls → M Args
parse_args_type c = do
  beg ← expect Kind.lparen "Expected '('"
  es ← c.elems_loop Kind.rparen
  fin ← expect Kind.rparen "Expected ')' to terminate arguments"
  pure (args_type (include beg.range fin.range) es)

unfoldable pub parse_group_type : Calls → M AstType
parse_group_type c = do
  beg ← expect Kind.lparen "Expected '('"
  type ← c.parse_type
  fin ← expect Kind.rparen "Expected ')'"
  pure (group_type (include beg.range fin.range) type)

unfoldable pub parse_varargs_type : Attrs → M AstType
parse_varargs_type attrs = do
  t ← expect Kind.ellipsis "Expected '...'"
  pure (varargs_type t.range attrs)

unfoldable pub parse_ptr_type : Calls → Attrs → M AstType
parse_ptr_type c attrs = do
  t ← expect Kind.star "Expected '*'"
  type ← c.parse_type
  pure (ptr_type (include t.range (type_range type)) type attrs)

unfoldable pub parse_atom_type : Calls → Attrs → M AstType
parse_atom_type c attrs = do type ← c.parse_type; pure (atom_type (type_range type) type attrs)

-- One turn of the loop over the enumerators, up to the closing bracket.
unfoldable pub enums_turn : Calls → M Enums
enums_turn c = do
  t ← peek
  if is Kind.rbracket t then pure no_enums else (do
    expect Kind.dot "Expected '.' prefix in enumerator"
    name ← expect Kind.ident "Expected identifier"
    t ← peek
    put ←
        (if is Kind.eq t
          then (do next; e ← c.parse_expr; pure (init_enumerator name.text e))
          else pure (enumerator name.text))
    t ← peek
    if is Kind.comma t then (do next; es ← c.enums_loop; pure (put es)) else pure (put no_enums))

unfoldable pub parse_enum : Calls → Attrs → Range → M AstType
parse_enum c attrs beg = do
  es ← c.enums_loop
  fin ← expect Kind.rbracket "Expected ']'"
  pure (enum_type (include beg fin.range) es attrs)

-- The extent, the closing bracket and the element type of an array.
unfoldable pub parse_array : Calls → Attrs → Range → Expr → M AstType
parse_array c attrs beg extent = do
  fin ← expect Kind.rbracket "Expected ']'"
  type ← c.parse_type
  pure (array_type (include (include beg fin.range) (type_range type)) type extent attrs)

-- The enumerators are never empty here, since a `.` was seen, and the extent is never null, since
-- a null from `parse_expr` is passed on: the node of a slice is not reached.
unfoldable pub bracket_case : Calls → Attrs → Range → Kind → M AstType
bracket_case c attrs beg Kind.dot = parse_enum c attrs beg
bracket_case c attrs beg Kind.question = do
  t ← next
  parse_array c attrs beg (infer_size_expr t.range)
bracket_case c attrs beg _ = do extent ← c.parse_expr; parse_array c attrs beg extent

unfoldable pub parse_bracket_type : Calls → Attrs → M AstType
parse_bracket_type c attrs = do
  beg ← expect Kind.lbracket "Expected '['"
  t ← peek
  bracket_case c attrs beg.range t.kind

unfoldable pub effects_turn : Calls → M Types
effects_turn c = do
  t ← peek
  if is Kind.gt t then pure no_types else (do
    type ← parse_ident_type no_attrs
    t ← peek
    if is Kind.comma t
        then (do next; es ← c.effects_loop; pure (more_types type es))
        else pure (more_types type no_types))

-- `('<' Ident (',' Ident)* '>')?`.
unfoldable pub parse_effects : Calls → M Types
parse_effects c = do
  t ← peek
  if is Kind.lt t
      then (do next; es ← c.effects_loop; expect Kind.gt "Expected '>'"; pure es)
      else pure no_types

-- The receivers and the arguments; one list alone is the arguments.
unfoldable pub parse_objs_args : Calls → M (Args × Args)
parse_objs_args c = do
  first ← parse_args_type c
  t ← peek
  if is Kind.lparen t
      then (do args ← parse_args_type c; pure (first, args))
      else pure (args_type no_range no_elems, first)

-- With no `->` the result is the empty tuple, whose range is that of nothing.
unfoldable pub parse_ret : Calls → M AstType
parse_ret c = do
  t ← peek
  if is Kind.arrow t then (do next; c.parse_type) else pure (tuple_type no_range no_elems no_attrs)

unfoldable pub parse_fn_type : Calls → Attrs → M AstType
parse_fn_type c attrs = do
  beg ← expect Kind.kw_fn "Expected 'fn'"
  lists ← parse_objs_args c
  effects ← parse_effects c
  ret ← parse_ret c
  pure (fn_type (include beg.range (type_range ret)) lists.0 lists.1 effects ret attrs)

abbrev pub known_attr : Bytes → Bool
known_attr name =
    equal name (codes "section")
    || equal name (codes "align")
    || equal name (codes "used")
    || equal name (codes "inline")
    || equal name (codes "aliasable")
    || equal name (codes "redzone")
    || equal name (codes "alignstack")
    || equal name (codes "export")

-- The only argument of an attribute; another number of them fails with no report.
unfoldable pub only_arg : Expr → M Expr
only_arg (tuple_expr _ (more_exprs e no_exprs)) = pure e
only_arg _ = refuse

unfoldable pub parse_attr : Calls → M (Attrs → Attrs)
parse_attr c = do
  t ← expect Kind.ident "Expected identifier"
  if known_attr t.text
      then (do
        args ← parse_tuple_expr c
        arg ← only_arg args
        pure (more_attrs (include t.range (expr_range args)) t.text arg))
      else fail "Unknown attribute: '%S'"

unfoldable pub attrs_turn : Calls → M Attrs
attrs_turn c = do
  t ← peek
  if is Kind.rparen t then pure no_attrs else (do
    put ← parse_attr c
    t ← peek
    if is Kind.comma t
        then (do next; rest ← c.attrs_loop; pure (put rest))
        else pure (put no_attrs))

unfoldable pub parse_attrs : Calls → M Attrs
parse_attrs c = do
  expect Kind.lparen "Expected '('"
  attrs ← c.attrs_loop
  expect Kind.rparen "Expected ')'"
  pure attrs

-- Behind a member of a union: a bar brings another.
unfoldable pub after_member : Calls → Attrs → AstType → M (Types × Attrs)
after_member c attrs type = do
  t ← peek
  if is Kind.bor t
      then (do next; rest ← c.type_loop attrs; pure (more_types type rest.0, rest.1))
      else pure (more_types type no_types, attrs)

-- `@` is either an attribute list, after which the loop goes on, or an atomic type.
unfoldable pub at_case : Calls → Attrs → M (Types × Attrs)
at_case c attrs = do
  next
  t ← peek
  if is Kind.lparen t
      then (do attrs ← parse_attrs c; c.type_loop attrs)
      else (do type ← parse_atom_type c attrs; after_member c no_attrs type)

-- The switch in the loop of `parse_type`. The attributes are moved into the member, but a group
-- leaves them.
unfoldable pub type_case : Calls → Attrs → Kind → M (Types × Attrs)
type_case c attrs Kind.ident = do type ← parse_ident_type attrs; after_member c no_attrs type
type_case c attrs Kind.lbrace = do type ← parse_tuple_type c attrs; after_member c no_attrs type
type_case c attrs Kind.lparen = do type ← parse_group_type c; after_member c attrs type
type_case c attrs Kind.star = do type ← parse_ptr_type c attrs; after_member c no_attrs type
type_case c attrs Kind.at = at_case c attrs
type_case c attrs Kind.lbracket = do type ← parse_bracket_type c attrs; after_member c no_attrs type
type_case c attrs Kind.kw_fn = do type ← parse_fn_type c attrs; after_member c no_attrs type
type_case c attrs Kind.ellipsis = do type ← parse_varargs_type attrs; after_member c no_attrs type
type_case c attrs _ = fail "Unexpected token '%S' while parsing type"

unfoldable pub type_loop_turn : Calls → Attrs → M (Types × Attrs)
type_loop_turn c attrs = do t ← peek; type_case c attrs t.kind

unfoldable pub types_range : Range → Types → Range
types_range r no_types = r
types_range r (more_types t ts) = types_range (include r (type_range t)) ts

-- One member is the type itself; more are a union.
unfoldable pub union_of : Types → Attrs → M AstType
union_of no_types attrs = fail ""
union_of (more_types t no_types) attrs = pure t
union_of (more_types t ts) attrs =
    pure (union_type (types_range (type_range t) (more_types t ts)) (more_types t ts) attrs)

unfoldable pub type_turn : Calls → M AstType
type_turn c = do ts ← c.type_loop no_attrs; union_of ts.0 ts.1
