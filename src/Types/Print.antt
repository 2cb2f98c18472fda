-- ===== src/Types/Print.antt =====
-- cg_type.cpp: how a type is printed, as `CgType::dump` appends it to a valid builder with room.
use rox.Prelude.{codes, Bool, true, false, if◌then◌else◌, Option, none, some, [], ◌++◌}
use rox.Lexer.Char.{Bytes}
use rox.Strings.Numbers.{decimal}
use rox.Types.{
  is_padding, CgTypes, is_union_kind, CgType, Nested, TypeKind, cg_type, unnested, nested, nil,
  cons,
}
use rox.Const.{ConstFields, last_field, field}

-- The kinds that stand for one type each.
abbrev pub plain_name : TypeKind → Bytes
plain_name TypeKind.u8 = codes "Uint8"
plain_name TypeKind.u16 = codes "Uint16"
plain_name TypeKind.u32 = codes "Uint32"
plain_name TypeKind.u64 = codes "Uint64"
plain_name TypeKind.s8 = codes "Sint8"
plain_name TypeKind.s16 = codes "Sint16"
plain_name TypeKind.s32 = codes "Sint32"
plain_name TypeKind.s64 = codes "Sint64"
plain_name TypeKind.b8 = codes "Bool8"
plain_name TypeKind.b16 = codes "Bool16"
plain_name TypeKind.b32 = codes "Bool32"
plain_name TypeKind.b64 = codes "Bool64"
plain_name TypeKind.f32 = codes "Real32"
plain_name TypeKind.f64 = codes "Real64"
plain_name TypeKind.string = codes "String"
plain_name TypeKind.va = codes "..."
plain_name _ = []

abbrev pub is_unnamed_union : CgType → Bool
is_unnamed_union (cg_type k l e ts f none) = is_union_kind k
is_unnamed_union (cg_type k l e ts f (some n)) = false

abbrev grouped : Bool → Bytes → Bytes
grouped true t = codes "(" ++ (t ++ codes ")")
grouped false t = t

-- A comma in front of all but the first.
abbrev comma : Bool → Bytes
comma first = if first then [] else codes ", "

-- The names of an enum's fields. A field of an enum always has one.
abbrev name_text : Option Bytes → Bytes
name_text none = []
name_text (some n) = n

unfoldable pub dump_names : Bool → ConstFields → Bytes
dump_names first last_field = []
dump_names first (field n c fs) = comma first ++ (codes "." ++ (name_text n ++ dump_names false fs))

abbrev dump_enum : Option ConstFields → Bytes
dump_enum none = []
dump_enum (some fs) = codes "[" ++ (dump_names true fs ++ codes "]")

abbrev is_empty : Nested → Bool
is_empty (nested (cons t ts)) = false
is_empty _ = true

-- Where the source reads a nested type that is not there, its assertion fails; the model prints
-- nothing.
unfoldable mutual
  pub dump : CgType → Bytes
  dump (cg_type k l e ts f (some n)) = n
  dump (cg_type TypeKind.pointer l e (nested (cons t ts)) f none) =
      codes "*" ++ grouped (is_unnamed_union t) (dump t)
  dump (cg_type TypeKind.pointer l e _ f none) = codes "*"
  dump (cg_type TypeKind.atomic l e ts f none) = codes "@" ++ dump_first ts
  dump (cg_type TypeKind.slice l e ts f none) = codes "[]" ++ dump_first ts
  dump (cg_type TypeKind.array l e ts f none) =
      codes "[" ++ (decimal e ++ (codes "]" ++ dump_first ts))
  dump (cg_type TypeKind.padding l e ts f none) = codes ".Pad" ++ decimal l.size
  dump (cg_type TypeKind.tuple l e ts f none) = codes "(" ++ (dump_tuple true ts ++ codes ")")
  dump (cg_type TypeKind.union l e ts f none) = dump_union ts
  dump (cg_type TypeKind.enum l e ts f none) = dump_enum f
  dump
        (cg_type TypeKind.fn l e
          (nested (
            cons
              (cg_type k0 l0 e0 ts0 f0 n0)
              (cons (cg_type k1 l1 e1 ts1 f1 n1) (cons t (cons (cg_type k3 l3 e3 ts3 f3 n3) ts)))))
          f
          none) =
      codes "fn"
      ++ ((if is_empty ts0 then [] else codes "(" ++ (dump_row ts0 ++ codes ")"))
          ++ (codes "(" ++ (dump_row ts1 ++ (codes ") -> (" ++ (dump_row ts3 ++ codes ")")))))
  dump (cg_type k l e ts f none) = plain_name k

  pub dump_first : Nested → Bytes
  dump_first (nested (cons t ts)) = dump t
  dump_first _ = []

  pub dump_tuple : Bool → Nested → Bytes
  dump_tuple first unnested = []
  dump_tuple first (nested ts) = dump_fields first ts

  -- Padding is left out, but it is not the first any more behind it.
  pub dump_fields : Bool → CgTypes → Bytes
  dump_fields first nil = []
  dump_fields first (cons t ts) =
      (if is_padding t then [] else comma first ++ dump t) ++ dump_fields false ts

  pub dump_union : Nested → Bytes
  dump_union unnested = []
  dump_union (nested ts) = dump_variants ts

  pub dump_variants : CgTypes → Bytes
  dump_variants nil = []
  dump_variants (cons t nil) = dump t
  dump_variants (cons t ts) = dump t ++ (codes " | " ++ dump_variants ts)

  pub dump_row : Nested → Bytes
  dump_row unnested = []
  dump_row (nested ts) = dump_members true ts

  pub dump_members : Bool → CgTypes → Bytes
  dump_members first nil = []
  dump_members first (cons t ts) = comma first ++ (dump t ++ dump_members false ts)
