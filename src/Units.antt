-- ===== src/Units.antt =====
-- ast_unit.h and ast_unit.cpp: functions, type definitions, imports and effects, and the unit that a
-- file is.
use rox.Prelude.{Bool, false, List, [], ◌∷◌, ◌++◌, Option, none, some, equal, if◌then◌else◌, ◌||◌}
use rox.Ast.{AstType, Args, Types, Attrs}
use rox.Stmt.{Stmt}
use rox.Lexer.Char.{Bytes}
use rox.Lexer.Token.{Range}

-- `AstModule` and `AstImport`.
pub record NameNode : Type 0 where
  pub range : Range
  pub name : Bytes

pub record AstFn : Type 0 where
  pub range : Range
  pub name : Bytes
  pub objs : Args
  pub args : Args
  pub effects : Types
  pub ret : AstType
  pub body : Stmt
  pub attrs : Attrs

pub record AstTypedef : Type 0 where
  pub range : Range
  pub name : Bytes
  pub type : AstType
  pub attrs : Attrs

pub record AstEffect : Type 0 where
  pub range : Range
  pub name : Bytes
  pub type : AstType

pub record AstUnit : Type 0 where
  pub module_ : Option NameNode
  pub fns : List AstFn
  pub lets : List Stmt
  pub typedefs : List AstTypedef
  pub imports : List NameNode
  pub effects : List AstEffect

abbrev pub empty_unit : AstUnit
empty_unit = record {
  module_ = none;
  fns = [];
  lets = [];
  typedefs = [];
  imports = [];
  effects = [];
}

abbrev pub add_fn : AstUnit → AstFn → AstUnit
add_fn u x = record u { fns = u.fns ++ (x ∷ []) }

abbrev pub add_let : AstUnit → Stmt → AstUnit
add_let u x = record u { lets = u.lets ++ (x ∷ []) }

abbrev pub add_typedef : AstUnit → AstTypedef → AstUnit
add_typedef u x = record u { typedefs = u.typedefs ++ (x ∷ []) }

abbrev pub add_effect : AstUnit → AstEffect → AstUnit
add_effect u x = record u { effects = u.effects ++ (x ∷ []) }

-- An import of that name is there already.
unfoldable pub imported : List NameNode → Bytes → Bool
imported [] n = false
imported (i ∷ is) n = equal i.name n || imported is n

-- Both refuse what is there already.
unfoldable pub add_import : AstUnit → NameNode → Option AstUnit
add_import u x =
    if imported u.imports x.name then none else some (record u { imports = u.imports ++ (x ∷ []) })

abbrev assign : AstUnit → NameNode → Option NameNode → Option AstUnit
assign u x none = some (record u { module_ = some x })
assign u x (some _) = none

unfoldable pub assign_module : AstUnit → NameNode → Option AstUnit
assign_module u x = assign u x u.module_
