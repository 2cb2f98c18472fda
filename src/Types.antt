-- ===== src/Types.antt =====
-- cg_type.h: the types that code is generated for. A type is a tree, with no `m_ref`: LLVM's types
-- are not modelled. Numbers are `Ulen`, of 64 bits. Memory is taken never to run out.
pub mod Make
pub mod Masks
pub mod Aligns
pub mod Places
pub mod Virtual
pub mod Same
pub mod Pads
pub mod Unions
pub mod Print
pub mod Shown
use rox.Prelude.{ℕ, suc, ◌+◌, Bool, true, false, Option, none, some, if◌then◌else◌, ◌==◌, ◌&&◌, not}
use rox.Lexer.Char.{Bytes}
use rox.Const.{ConstFields}

pub data TypeKind : Type 0 where
  u8 u16 u32 u64 s8 s16 s32 s64 b8 b16 b32 b64 f32 f64 : TypeKind
  string pointer atomic slice array padding tuple union enum fn va : TypeKind

pub record Layout : Type 0 where
  pub size : ℕ
  pub align : ℕ

mutual
  -- Kind, layout, extent, nested types, fields and name.
  pub data CgType : Type 0 where
    cg_type : TypeKind → Layout → ℕ → Nested → Option ConstFields → Option Bytes → CgType

  -- `m_types`, which may be none.
  pub data Nested : Type 0 where
    unnested : Nested
    nested : CgTypes → Nested

  pub data CgTypes : Type 0 where
    nil : CgTypes
    cons : CgType → CgTypes → CgTypes

abbrev pub kind : CgType → TypeKind
kind (cg_type k _ _ _ _ _) = k

abbrev pub layout : CgType → Layout
layout (cg_type _ l _ _ _ _) = l

abbrev pub size : CgType → ℕ
size t = (layout t).size

abbrev pub align : CgType → ℕ
align t = (layout t).align

abbrev pub extent : CgType → ℕ
extent (cg_type _ _ e _ _ _) = e

abbrev pub named : CgType → Option Bytes
named (cg_type _ _ _ _ _ n) = n

-- `types()`: with no nested types, the assertion fails and the model gives none.
abbrev listed : Nested → CgTypes
listed unnested = nil
listed (nested ts) = ts

abbrev pub types : CgType → CgTypes
types (cg_type _ _ _ ts _ _) = listed ts

abbrev pub count : CgTypes → ℕ
count nil = 0
count (cons t ts) = suc (count ts)

abbrev pub nth : CgTypes → ℕ → Option CgType
nth nil i = none
nth (cons t ts) ℕ.zero = some t
nth (cons t ts) (suc i) = nth ts i

abbrev padding_kind : TypeKind → Bool
padding_kind TypeKind.padding = true
padding_kind _ = false

abbrev pub is_padding : CgType → Bool
is_padding t = padding_kind (kind t)

abbrev va_kind : TypeKind → Bool
va_kind TypeKind.va = true
va_kind _ = false

abbrev pub is_va : CgType → Bool
is_va t = va_kind (kind t)

abbrev pub is_union_kind : TypeKind → Bool
is_union_kind TypeKind.union = true
is_union_kind _ = false

-- `at_virt`: the nested type at an index that leaves padding out.
unfoldable pub at_virt : CgTypes → ℕ → Option CgType
at_virt nil v = none
at_virt (cons t ts) v =
    if is_padding t then at_virt ts v else elim v [ ℕ.zero ↦ some t | suc v' ↦ at_virt ts v' ]
