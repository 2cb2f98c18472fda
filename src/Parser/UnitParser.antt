-- ===== src/Parser/UnitParser.antt =====
-- parser.cpp, the top level: modules, imports, effects, functions, type definitions and units.
use Prim.Native.String.{String}
use rox.Prelude.{if◌then◌else◌, ℕ, zero, suc, Option, none, some}
use rox.Ast.{Args, Attrs, type_range, no_attrs, args_type, no_elems}
use rox.Stmt.{stmt_range}
use rox.Units.{
  NameNode, AstFn, AstTypedef, AstEffect, AstUnit, empty_unit, add_fn, add_let, add_typedef,
  add_effect, add_import, assign_module,
}
use rox.Lexer.Token.{Kind}
use rox.Parser.State.{M, ◌>>=◌, ◌>>◌, pure, fail, is, peek, next, expect, include}
use rox.Parser.Calls.{Libc, Calls}
use rox.Parser.Run.{stuck}
use rox.Parser.TypeExpr.{parse_args_type, parse_effects, parse_ret, parse_attrs, no_range}
use rox.Parser.StmtParser.{StmtCalls, parse_block_stmt, parse_let_stmt}
use rox.Parser.StmtRun.{stmt_calls}

-- A keyword, a name and a semicolon.
unfoldable pub parse_module : M NameNode
parse_module = do
  beg ← expect Kind.kw_module "Expected 'module'"
  t ← expect Kind.ident "Expected identifier after 'module'"
  expect Kind.semi "Expected ';'"
  pure (record { range = include beg.range t.range; name = t.text })

unfoldable pub parse_import : M NameNode
parse_import = do
  beg ← expect Kind.kw_import "Expected 'import'"
  t ← expect Kind.ident "Expected identifier after 'import'"
  expect Kind.semi "Expected ';'"
  pure (record { range = include beg.range t.range; name = t.text })

unfoldable pub parse_effect : Calls → M AstEffect
parse_effect c = do
  beg ← expect Kind.kw_effect "Expected 'effect'"
  t ← expect Kind.ident "Expected identifier after 'effect'"
  expect Kind.eq "Expected '='"
  type ← c.parse_type
  expect Kind.semi "Expected ';'"
  pure (record {
    range = include (include beg.range t.range) (type_range type);
    name = t.text;
    type = type;
  })

-- The receivers of a function, empty where there are none.
unfoldable pub fn_objs : Calls → M Args
fn_objs c = do
  t ← peek
  if is Kind.lparen t then parse_args_type c else pure (args_type no_range no_elems)

-- Where the receivers or the result fail, a second report follows, which is left out.
unfoldable pub parse_fn : StmtCalls → Attrs → M AstFn
parse_fn c attrs = do
  beg ← expect Kind.kw_fn "Expected 'fn'"
  objs ← fn_objs c.exprs
  t ← expect Kind.ident "Expected name for 'fn'"
  args ← parse_args_type c.exprs
  effects ← parse_effects c.exprs
  ret ← parse_ret c.exprs
  body ← parse_block_stmt c
  pure (record {
    range = include beg.range (stmt_range body);
    name = t.text;
    objs = objs;
    args = args;
    effects = effects;
    ret = ret;
    body = body;
    attrs = attrs;
  })

unfoldable pub parse_typedef : Calls → Attrs → M AstTypedef
parse_typedef c attrs = do
  beg ← expect Kind.kw_type "Expected type"
  t ← expect Kind.ident "Expected identifier"
  expect Kind.eq "Expected '='"
  type ← c.parse_type
  fin ← expect Kind.semi "Expected ';'"
  pure (record { range = include beg.range fin.range; name = t.text; type = type; attrs = attrs })

-- The loop of `parse`, with the unit and the attributes that wait for a node.
abbrev pub Loop : Type 0
Loop = AstUnit → Attrs → M AstUnit

unfoldable pub put_unit : Loop → String → Attrs → Option AstUnit → M AstUnit
put_unit loop text attrs none = fail text
put_unit loop text attrs (some unit) = loop unit attrs

-- The attributes go into a function, a type definition or a constant; they stay behind the others.
unfoldable pub unit_case : StmtCalls → Loop → AstUnit → Attrs → Kind → M AstUnit
unit_case c loop unit attrs Kind.at = do next; attrs ← parse_attrs c.exprs; loop unit attrs
unit_case c loop unit attrs Kind.kw_fn = do x ← parse_fn c attrs; loop (add_fn unit x) no_attrs
unit_case c loop unit attrs Kind.kw_type = do
  x ← parse_typedef c.exprs attrs
  loop (add_typedef unit x) no_attrs
unit_case c loop unit attrs Kind.kw_let = do
  x ← parse_let_stmt c attrs
  loop (add_let unit x) no_attrs
unit_case c loop unit attrs Kind.kw_module = do
  x ← parse_module
  put_unit loop "Duplicate 'module' in file" attrs (assign_module unit x)
unit_case c loop unit attrs Kind.kw_import = do
  x ← parse_import
  put_unit loop "Duplicate 'import' in file" attrs (add_import unit x)
unit_case c loop unit attrs Kind.kw_effect = do
  x ← parse_effect c.exprs
  loop (add_effect unit x) attrs
unit_case c loop unit attrs Kind.end = pure unit
unit_case c loop unit attrs _ = fail "Unexpected token '%S' while parsing top-level"

unfoldable pub unit_loop : Libc → ℕ → Loop
unit_loop lc zero unit attrs = stuck
unit_loop lc (suc fuel) unit attrs = do
  t ← peek
  unit_case (stmt_calls lc fuel) (unit_loop lc fuel) unit attrs t.kind

unfoldable pub parse : Libc → ℕ → M AstUnit
parse lc fuel = unit_loop lc fuel empty_unit no_attrs
