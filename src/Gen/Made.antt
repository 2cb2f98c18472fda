-- ===== src/Gen/Made.antt =====
-- The types that nodes denote are types that the cache of types makes.
use rox.Gen.Denotes.{Naming, Denotes, ArgsDenote, ElemsDenote, TypesDenote, EffectsDenote}
use mathlib.Core.Path.{subst}
use mathlib.Core.Option
use rox.Gen.{equal, Surroundings}
use rox.Gen.TypeGen.{unit_type, plain, builtins, tuple_from, effects_from}
use rox.Types.Make.{box, ptr_layout, make_int, make_bool, make_real}
use rox.Const.{ConstFields, fields, no_fields}
use rox.Lexer.Char.{Bytes}
use rox.Prelude.{
  Bool-cases, All, ◌%◌, ◌^◌, ◌≡◌, refl, inl, inr, Bool, true, false, Option, none, some, List, [],
  ◌∷◌, ℕ,
}
use rox.Ast.{Elems, Types, AstType, Args, no_elems, elem, named_elem, no_types, more_types}
use rox.Types.{CgTypes, CgType, TypeKind, nil}
use rox.Types.Same.Made.{Made, AreMade}
use rox.Gen.{find_type}

unit-Made : Made unit_type
unfolding unit_type
unit-Made = Made.made_tuple nil no_fields _ AreMade.made_none

tuple-Made :
    (es : Elems) (n : Option Bytes) (p : CgTypes × ConstFields)
    → AreMade p.0
    → Made (tuple_from es n p)
tuple-Made no_elems n p m = unit-Made
tuple-Made (elem _ _) n p m = Made.made_tuple p.0 (fields p.1) n m
tuple-Made (named_elem _ _ _) n p m = Made.made_tuple p.0 (fields p.1) n m

effects-Made : (ts : Types) (p : CgTypes × ConstFields) → AreMade p.0 → Made (effects_from ts p)
effects-Made no_types p m = unit-Made
effects-Made (more_types _ _) p m = Made.made_tuple p.0 (fields p.1) none m

int-Made :
    (w : ℕ) (b : Bool) (k : TypeKind)
    → make_int (box w w) b none ≡ some (plain k w)
    → Made (plain k w)
int-Made w b k h = Made.made_int (box w w) b none _ h

bool-Made : (w : ℕ) (k : TypeKind) → make_bool (box w w) none ≡ some (plain k w) → Made (plain k w)
bool-Made w k h = Made.made_bool (box w w) none _ h

real-Made : (w : ℕ) (k : TypeKind) → make_real (box w w) none ≡ some (plain k w) → Made (plain k w)
real-Made w k h = Made.made_real (box w w) none _ h

u64-Made : Made (plain TypeKind.u64 8)
unfolding make_int
u64-Made = int-Made 8 false TypeKind.u64 refl

found-Made :
    (xs : List (Bytes × CgType)) (x : Bytes) (u : CgType)
    → All (λ e. Made e.1) xs
    → find_type xs x ≡ some u
    → Made u
unfolding find_type
found-Made [] x u a h = absurd (cc h)
found-Made ((n, t) ∷ xs) x u a h = elim (Bool-cases (equal n x)) [
  | inl e ↦ subst Made (Option.some-injective _ _ (rw e at h)) a.0
  | inr e ↦ found-Made xs x u a.1 (rw e at h)
]

infixr 4 ◌⊗◌
abbrev ◌⊗◌ : {A B : Type 0} → A → B → A × B
a ⊗ b = (a, b)

pub builtins-Made : (x : Bytes) (u : CgType) → find_type builtins x ≡ some u → Made u
unfolding builtins make_int make_bool make_real
builtins-Made x u h =
    found-Made builtins x u
      (int-Made 1 false _ refl
        ⊗ int-Made 2 false _ refl
        ⊗ int-Made 4 false _ refl
        ⊗ int-Made 8 false _ refl
        ⊗ int-Made 1 true _ refl
        ⊗ int-Made 2 true _ refl
        ⊗ int-Made 4 true _ refl
        ⊗ int-Made 8 true _ refl
        ⊗ bool-Made 1 _ refl
        ⊗ bool-Made 2 _ refl
        ⊗ bool-Made 4 _ refl
        ⊗ bool-Made 8 _ refl
        ⊗ real-Made 4 _ refl
        ⊗ real-Made 8 _ refl
        ⊗ Made.made_string
        ⊗ Made.made_pointer ptr_layout none
        ⊗ u64-Made
        ⊗ tt)
      h

module _ {N : Naming} (env : Surroundings)
    (names-Made : (x : Bytes) (u : CgType) → N x u → Made u) where
  mutual
    pub Denotes-Made : (t : AstType) (n : Option Bytes) (u : CgType) → Denotes N env t n u → Made u
    Denotes-Made _ _ _ (Denotes.tuple r es at n p d) = tuple-Made es n p (elems-Made es p d)
    Denotes-Made _ _ _ (Denotes.group r t n u d) = Denotes-Made t n u d
    Denotes-Made _ _ _ (Denotes.union r ts at n us d) = Made.made_union us n (types-Made ts us d)
    Denotes-Made _ _ _ (Denotes.ident r x at n u d) = names-Made x u d
    Denotes-Made _ _ _ (Denotes.ptr r t at n u d) =
        Made.made_ptr ptr_layout u n (Denotes-Made t none u d)
    Denotes-Made _ _ _ (Denotes.array r t e at n u q k m d h) =
        Made.made_array u (m % 2 ^ 64) n (Denotes-Made t none u d)
    Denotes-Made _ _ _ (Denotes.slice r t at n u d) = Made.made_slice u (Denotes-Made t none u d)
    Denotes-Made _ _ _ (Denotes.atom r t at n u d h) =
        Made.made_atomic u n (Denotes-Made t none u d)
    Denotes-Made _ _ _ (Denotes.enum r es at n fs u c h) = Made.made_enum _ fs n u u64-Made h
    Denotes-Made _ _ _ (Denotes.fn r os bs es t at n o a u e p q s d) =
        Made.made_ptr ptr_layout _ none (
          Made.made_fn o a (effects_from es e) u (args-Made os o p) (args-Made bs a q)
            (effects-Made es e (named-Made es e s)) (Denotes-Made t none u d))

    args-Made : (a : Args) (u : CgType) → ArgsDenote N env a u → Made u
    args-Made _ _ (ArgsDenote.args r es p d) = tuple-Made es none p (elems-Made es p d)

    elems-Made : (es : Elems) (p : CgTypes × ConstFields) → ElemsDenote N env es p → AreMade p.0
    elems-Made _ _ ElemsDenote.no_elem = AreMade.made_none
    elems-Made _ _ (ElemsDenote.an_elem t es u p d ds) =
        AreMade.made_more u p.0 (Denotes-Made t none u d) (elems-Made es p ds)
    elems-Made _ _ (ElemsDenote.a_named_elem x t es u p d ds) =
        AreMade.made_more u p.0 (Denotes-Made t none u d) (elems-Made es p ds)

    types-Made : (ts : Types) (us : CgTypes) → TypesDenote N env ts us → AreMade us
    types-Made _ _ TypesDenote.no_type = AreMade.made_none
    types-Made _ _ (TypesDenote.a_type t ts u us d ds) =
        AreMade.made_more u us (Denotes-Made t none u d) (types-Made ts us ds)

    named-Made : (ts : Types) (p : CgTypes × ConstFields) → EffectsDenote N env ts p → AreMade p.0
    named-Made _ _ EffectsDenote.no_effect = AreMade.made_none
    named-Made _ _ (EffectsDenote.an_effect t ts u p d ds) =
        AreMade.made_more u p.0 (Denotes-Made t none u d) (named-Made ts p ds)
