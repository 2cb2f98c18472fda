-- ===== src/Gen/Prepass.antt =====
-- cg_unit.cpp: `AstFn::prepass`, which declares a function before any function is generated.
use rox.Gen.Assign.{attribute}
use rox.Gen.Emit.{◌>>◌}
use rox.Gen.Emit.{FnTraits}
use rox.Types.Make.{addrof}
use rox.Gen.{equal, after, made}
use rox.Prelude.{
  codes, length, drop, ◌+◌, Bool, true, false, if◌then◌else◌, Option, none, some, List, [], ◌∷◌,
  ◌++◌, ℕ,
}
use rox.Ast.{Attrs, no_attrs, more_attrs}
use rox.Units.{AstFn}
use rox.Lexer.Char.{Bytes}
use rox.Lexer.Token.{Range}
use rox.Parser.Number.{starts_with}
use rox.Types.{CgType}
use rox.Types.Make.{make_fn}
use rox.Const.{Const, bool_const}
use rox.Eval.{Known, eval}
use rox.Gen.{Gen, Surroundings}
use rox.Gen.TypeGen.{gen_type, gen_args, gen_effects, effects_from}
use rox.Gen.Scopes.{Var, Ref, reg, lookup_first}
use rox.Gen.Emit.{Step, Trouble, done, pure, read, ◌>>=◌}
use rox.Gen.Assign.{FnVar, integral}
use rox.Gen.FnGen.{on_types}

-- `to<Bool>`, of a constant that is a boolean.
abbrev pub to_bool : Const → Option Bool
to_bool (bool_const r k b) = some b
to_bool _ = none

-- The test of a `Maybe` that stands for its value in the source.
abbrev pub has_value : Option Bool → Bool
has_value none = false
has_value (some b) = true

abbrev pub bool_read : Const → Option Bool
bool_read (bool_const q k v) = some (has_value (to_bool (bool_const q k v)))
bool_read _ = none

-- `!eval || !eval->is_bool()`, and then the test of the `Maybe`.
unfoldable pub boolean : Option Const → Step Bool
boolean o = attribute bool_read Trouble.not_boolean o

abbrev pub export_name : Bytes
export_name = codes "export"

abbrev pub redzone_name : Bytes
redzone_name = codes "redzone"

abbrev pub alignstack_name : Bytes
alignstack_name = codes "alignstack"

abbrev pub runtime_prefix : Bytes
runtime_prefix = codes "__biron_runtime_"

-- The first `export`.
unfoldable pub export_of : Known → Attrs → Step Bool
export_of k no_attrs = pure false
export_of k (more_attrs r name e rest) =
    if equal name export_name then boolean (eval k e) else export_of k rest

abbrev pub with_redzone : Bool → FnTraits → FnTraits
with_redzone true t = t
with_redzone false t = record t { noredzone = true }

abbrev pub with_alignment : ℕ → FnTraits → FnTraits
with_alignment n t = record t { stack_alignments = n ∷ t.stack_alignments }

-- The second loop over the attributes.
unfoldable pub fn_traits : Known → Attrs → FnTraits → Step FnTraits
fn_traits k no_attrs t = pure t
fn_traits k (more_attrs r name e rest) t =
    if equal name redzone_name
    then (do b ← boolean (eval k e); fn_traits k rest (with_redzone b t))
    else if equal name alignstack_name
    then (do n ← integral (eval k e); fn_traits k rest (with_alignment n t))
    else fn_traits k rest t

-- `Cg::nameof`.
abbrev pub nameof : Bytes → Bytes → Bytes
nameof prefix name = prefix ++ (codes "." ++ name)

abbrev pub new_ref : Step Ref
new_ref b = done (reg b.fresh) (record b { fresh = b.fresh + 1 })

abbrev pub add_fn : FnTraits → Step (Unit {0})
add_fn t b = done tt (record b { functions = t ∷ b.functions })

-- The function of LLVM: one of the intrinsics, or a new one.
abbrev pub fn_ref : List Var → Bytes → Step Ref
fn_ref intrinsics name =
    if starts_with name runtime_prefix
    then (do
      v ← read (lookup_first intrinsics (drop (length runtime_prefix) name))
      pure v.addr.ref)
    else new_ref

module _ (look : Range → Bytes → Gen CgType) (env : Surroundings) where
  -- The type of a function.
  unfoldable pub gen_fn_type : AstFn → Gen CgType
  gen_fn_type f s = after (gen_args look env f.objs s) (λ o. λ s1.
      after (gen_args look env f.args s1) (λ a. λ s2.
        after (gen_effects look env f.effects s2) (λ e. λ s3.
          after (gen_type look env f.ret none s3)
            (λ t. made (make_fn o a (effects_from f.effects e) t)))))

  -- What is listed in `cg.fns`, and what is set for the function.
  unfoldable pub prepass : List Var → Bytes → ℕ → AstFn → Step (FnVar × FnTraits)
  prepass intrinsics prefix i f = do
    t ← on_types (gen_fn_type f)
    exported ← export_of env.known f.attrs
    ref ← fn_ref intrinsics f.name
    traits ← fn_traits env.known f.attrs (record {
      symbol = if exported then f.name else nameof prefix f.name;
      exported = exported;
      noredzone = false;
      stack_alignments = [];
    })
    add_fn traits
    pure (record { node = some i; addr = record { type = addrof t; ref = ref } }, traits)

  unfoldable pub prepass_fns : List Var → Bytes → ℕ → List AstFn → Step (List FnVar)
  prepass_fns intrinsics prefix i [] = pure []
  prepass_fns intrinsics prefix i (f ∷ fs) = do
    v ← prepass intrinsics prefix i f
    vs ← prepass_fns intrinsics prefix (i + 1) fs
    pure (v.0 ∷ vs)
