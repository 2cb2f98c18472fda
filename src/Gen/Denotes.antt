-- ===== src/Gen/Denotes.antt =====
-- What the type that a node denotes is, where names stand for types: without an order in which the
-- names are declared.
use rox.Prelude.{◌%◌, ◌^◌, ◌≡◌, true, Option, none, some, ℕ}
use rox.Types.{CgTypes, CgType, TypeKind, nil, cons}
use rox.Ast.{
  Attrs, Expr, AstType, Types, Elems, Args, Enums, IntKind, tuple_type, group_type, union_type,
  ident_type, ptr_type, array_type, slice_type, atom_type, enum_type, fn_type, args_type, no_elems,
  elem, named_elem, no_types, more_types, no_enums, enumerator, init_enumerator,
}
use rox.Lexer.Char.{Bytes}
use rox.Gen.{CgType, Range, Surroundings}
use rox.Const.{no_init, field, int_const, to_uint, Const, last_field, ConstFields}
use rox.Gen.TypeGen.{
  ident_name, effects_from, plain, can_be_atomic, tuple_from, enum_field, next_value,
}
use rox.Eval.{eval}
use rox.Types.Make.{
  make_fn, make_enum, make_atomic, make_slice, make_array, ptr_layout, make_ptr, make_union,
}

-- A name stands for a type.
abbrev pub Naming : Type 1
Naming = Bytes → CgType → Type 0

-- The enumerators from a value on: each counts on from the one before or has a value of its own.
pub data Counts (env : Surroundings) (r : Range) : Enums → ℕ → ConstFields → Type 0 where
  no_more : (v : ℕ) → Counts env r no_enums v last_field
  next :
      (n : Bytes) (es : Enums) (v : ℕ) (fs : ConstFields)
      → Counts env r es (next_value v) fs
      → Counts env r (enumerator n es) v (enum_field r n v fs)
  own :
      (n : Bytes) (e : Expr) (es : Enums) (v w : ℕ) (c : Const) (fs : ConstFields)
      → eval env.known e ≡ some c
      → to_uint env.known.of_float 128 c ≡ some w
      → Counts env r es (next_value w) fs
      → Counts env r (init_enumerator n e es) v (enum_field r n w fs)

mutual
  pub data Denotes (N : Naming) (env : Surroundings)
      : AstType → Option Bytes → CgType → Type 0 where
    tuple :
        (r : Range) (es : Elems) (at : Attrs) (n : Option Bytes) (p : CgTypes × ConstFields)
        → ElemsDenote N env es p
        → Denotes N env (tuple_type r es at) n (tuple_from es n p)
    group :
        (r : Range) (t : AstType) (n : Option Bytes) (u : CgType)
        → Denotes N env t n u
        → Denotes N env (group_type r t) n u
    union :
        (r : Range) (ts : Types) (at : Attrs) (n : Option Bytes) (us : CgTypes)
        → TypesDenote N env ts us
        → Denotes N env (union_type r ts at) n (make_union us n)
    ident :
        (r : Range) (x : Bytes) (at : Attrs) (n : Option Bytes) (u : CgType)
        → N x u
        → Denotes N env (ident_type r x at) n u
    ptr :
        (r : Range) (t : AstType) (at : Attrs) (n : Option Bytes) (u : CgType)
        → Denotes N env t none u
        → Denotes N env (ptr_type r t at) n (make_ptr ptr_layout (some u) n)
    array :
        (r : Range) (t : AstType) (e : Expr) (at : Attrs) (n : Option Bytes) (u : CgType)
        (q : Range) (k : IntKind) (m : ℕ)
        → Denotes N env t none u
        → eval env.known e ≡ some (int_const q k m)
        → Denotes N env (array_type r t e at) n (make_array u (m % 2 ^ 64) n)
    slice :
        (r : Range) (t : AstType) (at : Attrs) (n : Option Bytes) (u : CgType)
        → Denotes N env t none u
        → Denotes N env (slice_type r t at) n (make_slice u)
    atom :
        (r : Range) (t : AstType) (at : Attrs) (n : Option Bytes) (u : CgType)
        → Denotes N env t none u
        → can_be_atomic u ≡ true
        → Denotes N env (atom_type r t at) n (make_atomic u n)
    enum :
        (r : Range) (es : Enums) (at : Attrs) (n : Option Bytes) (fs : ConstFields) (u : CgType)
        → Counts env r es 0 fs
        → make_enum (plain TypeKind.u64 8) fs n ≡ some u
        → Denotes N env (enum_type r es at) n u
    fn :
        (r : Range) (objs args : Args) (effects : Types) (ret : AstType) (at : Attrs)
        (n : Option Bytes) (o a t : CgType) (e : CgTypes × ConstFields)
        → ArgsDenote N env objs o
        → ArgsDenote N env args a
        → EffectsDenote N env effects e
        → Denotes N env ret none t
        → Denotes N env
            (fn_type r objs args effects ret at)
            n
            (make_ptr ptr_layout (some (make_fn o a (effects_from effects e) t)) none)

  pub data ArgsDenote (N : Naming) (env : Surroundings) : Args → CgType → Type 0 where
    args :
        (r : Range) (es : Elems) (p : CgTypes × ConstFields)
        → ElemsDenote N env es p
        → ArgsDenote N env (args_type r es) (tuple_from es none p)

  pub data ElemsDenote (N : Naming) (env : Surroundings)
      : Elems → CgTypes × ConstFields → Type 0 where
    no_elem : ElemsDenote N env no_elems (nil, last_field)
    an_elem :
        (t : AstType) (es : Elems) (u : CgType) (p : CgTypes × ConstFields)
        → Denotes N env t none u
        → ElemsDenote N env es p
        → ElemsDenote N env (elem t es) (cons u p.0, field none no_init p.1)
    a_named_elem :
        (x : Bytes) (t : AstType) (es : Elems) (u : CgType) (p : CgTypes × ConstFields)
        → Denotes N env t none u
        → ElemsDenote N env es p
        → ElemsDenote N env (named_elem x t es) (cons u p.0, field (some x) no_init p.1)

  pub data TypesDenote (N : Naming) (env : Surroundings) : Types → CgTypes → Type 0 where
    no_type : TypesDenote N env no_types nil
    a_type :
        (t : AstType) (ts : Types) (u : CgType) (us : CgTypes)
        → Denotes N env t none u
        → TypesDenote N env ts us
        → TypesDenote N env (more_types t ts) (cons u us)

  pub data EffectsDenote (N : Naming) (env : Surroundings)
      : Types → CgTypes × ConstFields → Type 0 where
    no_effect : EffectsDenote N env no_types (nil, last_field)
    an_effect :
        (t : AstType) (ts : Types) (u : CgType) (p : CgTypes × ConstFields)
        → Denotes N env t none u
        → EffectsDenote N env ts p
        → EffectsDenote N env (more_types t ts) (cons u p.0, field (ident_name t) no_init p.1)

module _ {N M : Naming} (env : Surroundings)
    (widen : (x : Bytes) (u : CgType) → N x u → M x u) where
  -- More names may be there.
  mutual
    pub Denotes-widen :
        (t : AstType) (n : Option Bytes) (u : CgType) → Denotes N env t n u → Denotes M env t n u
    Denotes-widen _ _ _ (Denotes.tuple r es at n p d) =
        Denotes.tuple r es at n p (elems-widen es p d)
    Denotes-widen _ _ _ (Denotes.group r t n u d) = Denotes.group r t n u (Denotes-widen t n u d)
    Denotes-widen _ _ _ (Denotes.union r ts at n us d) =
        Denotes.union r ts at n us (types-widen ts us d)
    Denotes-widen _ _ _ (Denotes.ident r x at n u d) = Denotes.ident r x at n u (widen x u d)
    Denotes-widen _ _ _ (Denotes.ptr r t at n u d) =
        Denotes.ptr r t at n u (Denotes-widen t none u d)
    Denotes-widen _ _ _ (Denotes.array r t e at n u q k m d h) =
        Denotes.array r t e at n u q k m (Denotes-widen t none u d) h
    Denotes-widen _ _ _ (Denotes.slice r t at n u d) =
        Denotes.slice r t at n u (Denotes-widen t none u d)
    Denotes-widen _ _ _ (Denotes.atom r t at n u d h) =
        Denotes.atom r t at n u (Denotes-widen t none u d) h
    Denotes-widen _ _ _ (Denotes.enum r es at n fs u c h) = Denotes.enum r es at n fs u c h
    Denotes-widen _ _ _ (Denotes.fn r os bs es t at n o a u e p q s d) =
        Denotes.fn r os bs es t at n o a u e (args-widen os o p) (args-widen bs a q)
          (effects-widen es e s) (Denotes-widen t none u d)

    pub args-widen : (a : Args) (u : CgType) → ArgsDenote N env a u → ArgsDenote M env a u
    args-widen _ _ (ArgsDenote.args r es p d) = ArgsDenote.args r es p (elems-widen es p d)

    pub elems-widen :
        (es : Elems) (p : CgTypes × ConstFields) → ElemsDenote N env es p → ElemsDenote M env es p
    elems-widen _ _ ElemsDenote.no_elem = ElemsDenote.no_elem
    elems-widen _ _ (ElemsDenote.an_elem t es u p d ds) =
        ElemsDenote.an_elem t es u p (Denotes-widen t none u d) (elems-widen es p ds)
    elems-widen _ _ (ElemsDenote.a_named_elem x t es u p d ds) =
        ElemsDenote.a_named_elem x t es u p (Denotes-widen t none u d) (elems-widen es p ds)

    pub types-widen :
        (ts : Types) (us : CgTypes) → TypesDenote N env ts us → TypesDenote M env ts us
    types-widen _ _ TypesDenote.no_type = TypesDenote.no_type
    types-widen _ _ (TypesDenote.a_type t ts u us d ds) =
        TypesDenote.a_type t ts u us (Denotes-widen t none u d) (types-widen ts us ds)

    pub effects-widen :
        (ts : Types) (p : CgTypes × ConstFields)
        → EffectsDenote N env ts p
        → EffectsDenote M env ts p
    effects-widen _ _ EffectsDenote.no_effect = EffectsDenote.no_effect
    effects-widen _ _ (EffectsDenote.an_effect t ts u p d ds) =
        EffectsDenote.an_effect t ts u p (Denotes-widen t none u d) (effects-widen ts p ds)
