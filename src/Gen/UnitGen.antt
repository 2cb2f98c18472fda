-- ===== src/Gen/UnitGen.antt =====
-- cg_stmt.cpp and cg_unit.cpp: `AstLetStmt::codegen_global`, `AstModule::codegen` and
-- `AstUnit::codegen`, from the module's name to the functions.
use rox.Gen.Assign.{attribute}
use rox.Gen.Prepass.{to_bool}
use rox.Gen.Emit.{GlobalTraits, Global}
use rox.Gen.Prepass.{nameof, new_ref}
use rox.Types.Make.{addrof}
use rox.Prelude.{
  codes, Bool, true, false, if◌then◌else◌, Option, none, some, List, [], ◌∷◌, ◌++◌, ℕ,
}
use rox.Ast.{Expr, Attrs, no_attrs, more_attrs, expr_range}
use rox.Stmt.{Stmt}
use rox.Units.{AstFn, AstUnit, NameNode}
use rox.Lexer.Char.{Bytes}
use rox.Lexer.Token.{Range}
use rox.Types.{CgType, cons, nil, TypeKind}
use rox.Types.Make.{make_fn, make_tuple, make_ptr, ptr_layout, make_va, u8_type}
use rox.Const.{Const, string_const, no_fields}
use rox.Eval.{Known, eval}
use rox.Gen.{equal, Gen, Surroundings, Outcome, made, failed, broken, spent}
use rox.Gen.TypeGen.{gen_type, unit_type, plain}
use rox.Gen.Resolve.{resolve, gen_declared}
use rox.Gen.Scopes.{Var, reg}
use rox.Gen.Emit.{
  Step, Trouble, Expressions, done, pure, report, refused, exhausted, unsound, call, needed, refuse,
  ◌>>=◌, ◌>>◌,
}
use rox.Gen.Assign.{FnVar, integral}
use rox.Gen.FnGen.{gen_fns}
use rox.Gen.Prepass.{prepass_fns}

abbrev pub plain_traits : GlobalTraits
plain_traits = record { exported = false; section = none; alignments = [] }

abbrev pub to_text : Const → Option Bytes
to_text (string_const q s) = some s
to_text _ = none

abbrev pub text_of : Option Const → Step Bytes
text_of o = attribute to_text Trouble.not_string o

-- `as_bool`, of a constant that is a boolean.
abbrev pub truth_of : Option Const → Step Bool
truth_of o = attribute to_bool Trouble.not_boolean o

abbrev pub with_export : Bool → GlobalTraits → GlobalTraits
with_export true t = record t { exported = true }
with_export false t = t

-- The loop over the attributes of a constant.
unfoldable pub global_traits : Known → Attrs → GlobalTraits → Step GlobalTraits
global_traits k no_attrs t = pure t
global_traits k (more_attrs r name e rest) t =
    if equal name (codes "section")
    then (do s ← text_of (eval k e); global_traits k rest (record t { section = some s }))
    else if equal name (codes "align")
    then (do
      n ← integral (eval k e)
      global_traits k rest (record t { alignments = n ∷ t.alignments }))
    else if equal name (codes "used")
    then (do v ← truth_of (eval k e); global_traits k rest t)
    else if equal name (codes "export")
    then (do v ← truth_of (eval k e); global_traits k rest (with_export v t))
    else report r Trouble.unknown_attribute

abbrev pub const_of : Range → Option Const → Step Const
const_of r none = report r Trouble.not_constant
const_of r (some c) = pure c

abbrev pub list_global : Known → Bytes → Const → Known
list_global k name c = record k { globals = k.globals ++ ((name, c) ∷ []) }

abbrev pub add_global : Global → Step (Unit {0})
add_global g b = done tt (record b { globals = g ∷ b.globals })

module _ (on : Expressions) where
  -- `AstLetStmt::codegen_global`: the constants known, with one more. It is there for its own
  -- attributes.
  unfoldable pub gen_global : Bytes → Known → Bytes → Expr → Attrs → Step Known
  gen_global prefix k name e attrs = do
    c ← const_of (expr_range e) (eval k e)
    o ← call (on.gen_type e none)
    t ← needed o
    v ← call (on.const_value c t)
    src ← needed v
    dst ← new_ref
    traits ← global_traits (list_global k name c) attrs plain_traits
    add_global (record {
      symbol = nameof prefix name;
      addr = record { type = addrof src.type; ref = dst };
      initial = src.ref;
      traits = traits;
    })
    pure (list_global k name c)

  -- The constants of a unit are `let` statements.
  unfoldable pub gen_globals : Bytes → Known → List Stmt → Step Known
  gen_globals prefix k [] = pure k
  gen_globals prefix k (Stmt.let_stmt r name e attrs ∷ ss) = do
    k' ← gen_global prefix k name e attrs
    gen_globals prefix k' ss
  gen_globals prefix k (s ∷ ss) = refuse

abbrev pub settled : Outcome (Unit {0}) → Step (Unit {0})
settled (made x s) b = done tt (record b { declared = s })
settled (failed s) b = refused
settled broken b = unsound
settled spent b = exhausted

abbrev pub declare_types : Gen (Unit {0}) → Step (Unit {0})
declare_types m b = settled (m b.declared) b

abbrev fn_address : CgType → CgType → CgType
fn_address args ret = make_ptr ptr_layout (some (make_fn unit_type args unit_type ret)) none

abbrev f32_type : CgType
f32_type = plain TypeKind.f32 4

-- `printf` and `sqrt`, which are no nodes of the unit.
abbrev pub library_fns : List FnVar
library_fns =
    record {
      node = none;
      addr = record {
        type =
            fn_address
              (make_tuple (cons (make_ptr ptr_layout (some u8_type) none) (cons make_va nil))
                no_fields none)
              (make_tuple (cons (plain TypeKind.s32 4) nil) no_fields none);
        ref = reg 0;
      };
    }
    ∷ record {
      node = none;
      addr = record {
        type = fn_address (make_tuple (cons f32_type nil) no_fields none) f32_type;
        ref = reg 1;
      };
    }
    ∷ []

-- `memory_ne` and `memory_eq`.
abbrev memory_type : CgType
memory_type =
    fn_address
      (make_tuple
        (cons (make_ptr ptr_layout none none)
          (cons (make_ptr ptr_layout none none) (cons (plain TypeKind.u64 8) nil)))
        no_fields none)
      (make_tuple (cons (plain TypeKind.b32 4) nil) no_fields none)

abbrev pub runtime_fns : List Var
runtime_fns =
    record { name = codes "memory_ne"; addr = record { type = memory_type; ref = reg 2 } }
    ∷ record { name = codes "memory_eq"; addr = record { type = memory_type; ref = reg 3 } }
    ∷ []

abbrev no_range : Range
no_range = record { offset = 0; length = 0 }

-- `AstModule::codegen`.
abbrev pub module_name : NameNode → Step Bytes
module_name n =
    if equal n.name (codes "intrinsics")
    then report n.range Trouble.bad_module_name
    else pure n.name

abbrev pub prefix_of : Option NameNode → Step Bytes
prefix_of none = report no_range Trouble.no_module
prefix_of (some n) = module_name n

abbrev pub surroundings : AstUnit → Known → (Expr → Bool) → Surroundings
surroundings unit k infers = record {
  unit_typedefs = unit.typedefs;
  unit_effects = unit.effects;
  known = k;
  infers = infers;
}

-- The functions, over what is known of types and constants.
unfoldable pub gen_all_fns : ℕ → Expressions → Surroundings → Bytes → List AstFn → Step (Unit {0})
gen_all_fns fuel on env prefix fs = do
  vs ← prepass_fns (resolve fuel env) env runtime_fns prefix 0 fs
  gen_fns (gen_type (resolve fuel env) env)
      (record { known = env.known; fns = library_fns ++ vs; on = on }) fuel 0 fs

-- `AstUnit::codegen`.
unfoldable pub gen_unit : ℕ → Expressions → (Expr → Bool) → Known → AstUnit → Step (Unit {0})
gen_unit fuel on infers k unit = do
  prefix ← prefix_of unit.module_
  known ← gen_globals on prefix k unit.lets
  declare_types (gen_declared fuel (surroundings unit known infers))
  gen_all_fns fuel on (surroundings unit known infers) prefix unit.fns
