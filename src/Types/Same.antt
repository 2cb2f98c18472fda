-- ===== src/Types/Same.antt =====
-- cg_type.cpp, cg_type.h: when two types are the same, and `CgType::contains`.
pub mod Heads
pub mod Erased
pub mod Whole
pub mod Made
use rox.Prelude.{
  ℕ, zero, suc, ◌+◌, ◌-◌, ◌*◌, ◌/◌, ◌%◌, ◌^◌, ◌≤◌, ◌<◌, ◌≡◌, refl, arith, ◌⊎◌, inl, inr, Bool, true,
  false, if◌then◌else◌, Option, none, some, List, [], ◌∷◌, ◌==◌, ltb, leb, ◌&&◌, not, ◌++◌, ◌↔◌,
}
use rox.Types.{
  count, Nested, CgType, CgTypes, Layout, TypeKind, nil, cons, cg_type, nested, unnested,
}

-- The enumerators, in their order.
abbrev pub kind_number : TypeKind → ℕ
kind_number TypeKind.u8 = 0
kind_number TypeKind.u16 = 1
kind_number TypeKind.u32 = 2
kind_number TypeKind.u64 = 3
kind_number TypeKind.s8 = 4
kind_number TypeKind.s16 = 5
kind_number TypeKind.s32 = 6
kind_number TypeKind.s64 = 7
kind_number TypeKind.b8 = 8
kind_number TypeKind.b16 = 9
kind_number TypeKind.b32 = 10
kind_number TypeKind.b64 = 11
kind_number TypeKind.f32 = 12
kind_number TypeKind.f64 = 13
kind_number TypeKind.string = 14
kind_number TypeKind.pointer = 15
kind_number TypeKind.atomic = 16
kind_number TypeKind.slice = 17
kind_number TypeKind.array = 18
kind_number TypeKind.padding = 19
kind_number TypeKind.tuple = 20
kind_number TypeKind.union = 21
kind_number TypeKind.enum = 22
kind_number TypeKind.fn = 23
kind_number TypeKind.va = 24

-- The tests in front of the nested types: kind, layout and extent.
abbrev pub same_layout : Layout → Layout → Bool
same_layout l l' = (l.size == l'.size) && (l.align == l'.align)

abbrev pub same_head : TypeKind → Layout → ℕ → TypeKind → Layout → ℕ → Bool
same_head k l e k' l' e' = (kind_number k == kind_number k') && same_layout l l' && (e == e')

-- `operator!=`, of a type and another. The elements are compared the other way round: `differ_from`
-- is `operator!=` with the other type first.
unfoldable mutual
  pub differ : CgType → CgType → Bool
  differ (cg_type k l e ts f n) (cg_type k' l' e' us f' n') =
      if same_head k' l' e' k l e then differ_nested ts us else true

  pub differ_nested : Nested → Nested → Bool
  differ_nested ts unnested = false
  differ_nested unnested (nested us) = true
  differ_nested (nested ts) (nested us) = if count us == count ts then differ_any ts us else true

  -- Of equal length: what is past the end of the other list is not compared.
  pub differ_any : CgTypes → CgTypes → Bool
  differ_any nil us = false
  differ_any (cons t ts) nil = false
  differ_any (cons t ts) (cons u us) = if differ_from t u then true else differ_any ts us

  pub differ_from : CgType → CgType → Bool
  differ_from (cg_type k l e ts f n) (cg_type k' l' e' us f' n') =
      if same_head k l e k' l' e' then differ_from_nested ts us else true

  pub differ_from_nested : Nested → Nested → Bool
  differ_from_nested unnested us = false
  differ_from_nested (nested ts) unnested = true
  differ_from_nested (nested ts) (nested us) =
      if count ts == count us then differ_from_any ts us else true

  pub differ_from_any : CgTypes → CgTypes → Bool
  differ_from_any nil us = false
  differ_from_any (cons t ts) nil = false
  differ_from_any (cons t ts) (cons u us) = if differ t u then true else differ_from_any ts us

-- `contains`, of the nested types of a type.
unfoldable pub contains : CgTypes → CgType → Option CgType
contains nil find = none
contains (cons t ts) find = if not (differ t find) then some t else contains ts find
