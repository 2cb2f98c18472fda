-- ===== src/Gen/TypeGen.antt =====
-- cg_type.cpp and cg_unit.cpp: `codegen` of the nodes of types, type definitions and effects. A type
-- that is named is looked for with `look`, which `resolve` gives on fuel.
use rox.Ast.{
  Exprs, tuple_expr, agg_expr, typed_agg_expr, bin_expr, lbin_expr, index_expr, cast_expr,
  prop_expr, var_expr, no_exprs, more_exprs,
}
use rox.Eval.{Known}
use rox.Gen.{tried}
use rox.Prelude.{◌++◌}
use rox.Prelude.{
  codes, ◌+◌, ◌%◌, ◌^◌, Bool, true, false, if◌then◌else◌, Option, none, some, List, [], ◌∷◌, ◌||◌,
  ℕ,
}
use rox.Ast.{
  Expr, AstType, Types, Elems, Args, Enums, IntKind, tuple_type, group_type, union_type, ident_type,
  varargs_type, ptr_type, array_type, slice_type, atom_type, enum_type, fn_type, args_type,
  no_elems, elem, named_elem, no_types, more_types, no_enums, enumerator, init_enumerator,
  type_range, expr_range,
}
use rox.Gen.{
  null, or_null, unwrap, Problem, error, pure, Gen, AstType, Bytes, CgType, Range, Surroundings,
  ◌>>=◌,
}
use rox.Types.{cons, unnested, CgTypes, nil, cg_type, kind, TypeKind}
use rox.Types.Make.{
  make_fn, make_slice, make_array, make_union, make_enum, ptr_layout, make_atomic, make_ptr, box,
  make_string, make_tuple,
}
use rox.Const.{
  no_init, to_uint, int_const, fields, init, last_field, no_fields, Const, field, ConstFields,
}
use rox.Eval.{signed, eval}

-- A builtin type of one field, as wide as it is aligned.
abbrev pub plain : TypeKind → ℕ → CgType
plain k w = cg_type k (box w w) 0 unnested none none

unfoldable pub unit_type : CgType
unit_type = make_tuple nil no_fields (some (codes ".Unit"))

unfoldable pub builtins : List (Bytes × CgType)
builtins =
    (codes "Uint8", plain TypeKind.u8 1)
    ∷ (codes "Uint16", plain TypeKind.u16 2)
    ∷ (codes "Uint32", plain TypeKind.u32 4)
    ∷ (codes "Uint64", plain TypeKind.u64 8)
    ∷ (codes "Sint8", plain TypeKind.s8 1)
    ∷ (codes "Sint16", plain TypeKind.s16 2)
    ∷ (codes "Sint32", plain TypeKind.s32 4)
    ∷ (codes "Sint64", plain TypeKind.s64 8)
    ∷ (codes "Bool8", plain TypeKind.b8 1)
    ∷ (codes "Bool16", plain TypeKind.b16 2)
    ∷ (codes "Bool32", plain TypeKind.b32 4)
    ∷ (codes "Bool64", plain TypeKind.b64 8)
    ∷ (codes "Real32", plain TypeKind.f32 4)
    ∷ (codes "Real64", plain TypeKind.f64 8)
    ∷ (codes "String", make_string)
    ∷ (codes "Address", make_ptr ptr_layout none none)
    ∷ (codes "Length", plain TypeKind.u64 8)
    ∷ []

abbrev integer_kind : TypeKind → Bool
integer_kind TypeKind.u8 = true
integer_kind TypeKind.u16 = true
integer_kind TypeKind.u32 = true
integer_kind TypeKind.u64 = true
integer_kind TypeKind.s8 = true
integer_kind TypeKind.s16 = true
integer_kind TypeKind.s32 = true
integer_kind TypeKind.s64 = true
integer_kind _ = false

abbrev pointer_kind : TypeKind → Bool
pointer_kind TypeKind.pointer = true
pointer_kind _ = false

-- `is_integer() || is_pointer()`.
abbrev pub can_be_atomic : CgType → Bool
can_be_atomic t = integer_kind (kind t) || pointer_kind (kind t)

abbrev pub ident_name : AstType → Option Bytes
ident_name (ident_type r n at) = some n
ident_name _ = none

-- The unit type is there from the start.
abbrev pub tuple_from : Elems → Option Bytes → CgTypes × ConstFields → CgType
tuple_from no_elems n p = unit_type
tuple_from _ n p = make_tuple p.0 (fields p.1) n

abbrev pub effects_from : Types → CgTypes × ConstFields → CgType
effects_from no_types p = unit_type
effects_from _ p = make_tuple p.0 (fields p.1) none

-- The names that `of` is asked about while an expression is evaluated, in order: behind a part with
-- no value nothing is evaluated.
abbrev pub go_on : Option Const → List (Range × Bytes) → List (Range × Bytes)
go_on none xs = []
go_on (some c) xs = xs

unfoldable mutual
  pub asked : Known → Expr → List (Range × Bytes)
  asked k (tuple_expr r es) = asked_all k es
  asked k (agg_expr r es) = asked_all k es
  asked k (typed_agg_expr r t es) = asked_all k es
  asked k (bin_expr r o a b) = asked k a ++ go_on (eval k a) (asked k b)
  asked k (lbin_expr r o a b) = asked k a ++ go_on (eval k a) (asked k b)
  asked k (index_expr r a i) = asked k a ++ go_on (eval k a) (asked k i)
  asked k (cast_expr r e t) = asked k e
  asked k (prop_expr r p (var_expr q x)) = (q, x) ∷ []
  asked k _ = []

  pub asked_all : Known → Exprs → List (Range × Bytes)
  asked_all k no_exprs = []
  asked_all k (more_exprs e es) = asked k e ++ go_on (eval k e) (asked_all k es)

-- Each name is looked for as that of a type, which may generate it.
unfoldable pub ask : (Range → Bytes → Gen CgType) → List (Range × Bytes) → Gen (Unit {0})
ask look [] = pure tt
ask look ((q, x) ∷ xs) = look q x >>= λ t. ask look xs

abbrev pub extent_value : Surroundings → Range → Option Const → Gen ℕ
extent_value env r (some (int_const q k n)) =
    or_null (to_uint env.known.of_float 64 (int_const q k n))
extent_value env r _ = error r Problem.not_an_extent

-- An extent, with the types that are generated on the way to its value.
unfoldable pub gen_extent : (Range → Bytes → Gen CgType) → Surroundings → Expr → Gen ℕ
gen_extent look env e s =
    tried (ask look (asked env.known e) s) (extent_value env (expr_range e) (eval env.known e))
      (error (expr_range e) Problem.not_an_extent)

abbrev pub gen_atomic : Range → CgType → Option Bytes → Gen CgType
gen_atomic r base n =
    if can_be_atomic base then pure (make_atomic base n) else error r Problem.not_atomic

-- The value that an enumerator starts at, a pattern of 128 bits.
abbrev pub init_value : Surroundings → Range → Option Const → Gen ℕ
init_value env r none = error r Problem.not_an_enumerator
init_value env r (some c) = unwrap (to_uint env.known.of_float 128 c)

unfoldable pub gen_init : (Range → Bytes → Gen CgType) → Surroundings → Expr → Gen ℕ
gen_init look env e s =
    if env.infers e
    then tried (ask look (asked env.known e) s) (init_value env (expr_range e) (eval env.known e))
        (error (expr_range e) Problem.not_an_enumerator)
    else error (expr_range e) Problem.no_enumerator_type s

abbrev pub enum_field : Range → Bytes → ℕ → ConstFields → ConstFields
enum_field r n v fs = field (some n) (init (int_const r IntKind.s64 (signed 64 v))) fs

abbrev pub next_value : ℕ → ℕ
next_value v = (v + 1) % 2 ^ 128

-- The loop over the enumerators, at an offset.
unfoldable pub gen_enums :
    (Range → Bytes → Gen CgType) → Surroundings → Range → Enums → ℕ → Gen ConstFields
gen_enums look env r no_enums v = pure last_field
gen_enums look env r (enumerator n es) v = do
  fs ← gen_enums look env r es (next_value v)
  pure (enum_field r n v fs)
gen_enums look env r (init_enumerator n e es) v = do
  w ← gen_init look env e
  fs ← gen_enums look env r es (next_value w)
  pure (enum_field r n w fs)

unfoldable pub gen_enum :
    (Range → Bytes → Gen CgType) → Surroundings → Range → Enums → Option Bytes → Gen CgType
gen_enum look env r no_enums n = error r Problem.empty_enum
gen_enum look env r es n = do
  fs ← gen_enums look env r es 0
  or_null (make_enum (plain TypeKind.u64 8) fs n)

module _ (look : Range → Bytes → Gen CgType) (env : Surroundings) where
  unfoldable mutual
    pub gen_type : AstType → Option Bytes → Gen CgType
    gen_type (tuple_type r es at) n = do p ← gen_elems es; pure (tuple_from es n p)
    gen_type (group_type r t) n = gen_type t n
    gen_type (union_type r ts at) n = do us ← gen_types ts; pure (make_union us n)
    gen_type (ident_type r name at) n = look r name
    gen_type (varargs_type r at) n = null
    gen_type (ptr_type r t at) n = do
      base ← gen_type t none
      pure (make_ptr ptr_layout (some base) n)
    gen_type (array_type r t e at) n = do
      base ← gen_type t none
      extent ← gen_extent look env e
      pure (make_array base extent n)
    gen_type (slice_type r t at) n = do base ← gen_type t none; pure (make_slice base)
    gen_type (atom_type r t at) n = do base ← gen_type t none; gen_atomic (type_range t) base n
    gen_type (enum_type r es at) n = gen_enum look env r es n
    gen_type (fn_type r objs args effects ret at) n = do
      o ← gen_args objs
      a ← gen_args args
      e ← gen_effects effects
      t ← gen_type ret none
      pure (make_ptr ptr_layout (some (make_fn o a (effects_from effects e) t)) none)

    -- `AstArgsType`.
    pub gen_args : Args → Gen CgType
    gen_args (args_type r es) = do p ← gen_elems es; pure (tuple_from es none p)

    pub gen_elems : Elems → Gen (CgTypes × ConstFields)
    gen_elems no_elems = pure (nil, last_field)
    gen_elems (elem t es) = do
      u ← gen_type t none
      p ← gen_elems es
      pure (cons u p.0, field none no_init p.1)
    gen_elems (named_elem name t es) = do
      u ← gen_type t none
      p ← gen_elems es
      pure (cons u p.0, field (some name) no_init p.1)

    pub gen_types : Types → Gen CgTypes
    gen_types no_types = pure nil
    gen_types (more_types t ts) = do u ← gen_type t none; us ← gen_types ts; pure (cons u us)

    pub gen_effects : Types → Gen (CgTypes × ConstFields)
    gen_effects no_types = pure (nil, last_field)
    gen_effects (more_types t ts) = do
      u ← gen_type t none
      p ← gen_effects ts
      pure (cons u p.0, field (ident_name t) no_init p.1)
