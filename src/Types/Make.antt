-- ===== src/Types/Make.antt =====
-- cg_type.cpp: what `CgTypeCache::make` makes.
use Prim.Native.Nat.{bit_and}
use rox.Prelude.{
  ℕ, zero, suc, ◌+◌, ◌-◌, ◌*◌, ◌%◌, ◌^◌, Bool, true, false, Option, none, some, if◌then◌else◌, ◌==◌,
  ltb,
}
use rox.Lexer.Char.{Bytes}
use rox.Const.{
  ConstFields, OptFields, OptConst, no_fields, fields, field, last_field, no_init, init, copy,
  copy_fields,
}
use rox.Types.{
  TypeKind, Layout, CgType, Nested, CgTypes, cg_type, unnested, nested, nil, cons, layout, size,
  align, is_va,
}

abbrev pub box : ℕ → ℕ → Layout
box s a = record { size = s; align = a }

-- `max` and `sum` of util/numeric.inl.
abbrev pub max_size : ℕ → ℕ → ℕ
max_size a b = if ltb b a then a else b

abbrev pub word : ℕ → ℕ
word n = n % 2 ^ 64

abbrev pub sum_size : ℕ → ℕ → ℕ
sum_size a b = word (a + b)

abbrev pub pick : ℕ → TypeKind → TypeKind → TypeKind → TypeKind → Option TypeKind
pick s k8 k4 k2 k1 =
    if s == 8
    then some k8
    else if s == 4
    then some k4
    else if s == 2
    then some k2
    else if s == 1
    then some k1
    else none

abbrev pub flat : Option TypeKind → Layout → Option Bytes → Option CgType
flat none l n = none
flat (some k) l n = some (cg_type k l 0 unnested none n)

unfoldable pub make_int : Layout → Bool → Option Bytes → Option CgType
make_int l true n = flat (pick l.size TypeKind.s64 TypeKind.s32 TypeKind.s16 TypeKind.s8) l n
make_int l false n = flat (pick l.size TypeKind.u64 TypeKind.u32 TypeKind.u16 TypeKind.u8) l n

unfoldable pub make_real : Layout → Option Bytes → Option CgType
make_real l n =
    flat
      (if l.size == 8 then some TypeKind.f64 else if l.size == 4 then some TypeKind.f32 else none) l
      n

unfoldable pub make_bool : Layout → Option Bytes → Option CgType
make_bool l n = flat (pick l.size TypeKind.b64 TypeKind.b32 TypeKind.b16 TypeKind.b8) l n

-- The builtin types that others are made of.
abbrev pub u8_type : CgType
u8_type = cg_type TypeKind.u8 (box 1 1) 0 unnested none none

abbrev pub u64_type : CgType
u64_type = cg_type TypeKind.u64 (box 8 8) 0 unnested none none

-- `PtrInfo`, with a base or without: the array of types is there from the start.
abbrev base_types : Option CgType → Nested
base_types none = nested nil
base_types (some t) = nested (cons t nil)

unfoldable pub make_ptr : Layout → Option CgType → Option Bytes → CgType
make_ptr l base n = cg_type TypeKind.pointer l 0 (base_types base) none n

abbrev pub ptr_layout : Layout
ptr_layout = box 8 8

abbrev pair_layout : Layout
pair_layout = box (sum_size 8 8) (max_size 8 8)

unfoldable pub make_string : CgType
unfolding make_ptr
make_string =
    cg_type TypeKind.string pair_layout 0
      (nested (cons (make_ptr ptr_layout (some u8_type) none) (cons u64_type nil))) none none

unfoldable pub make_slice : CgType → CgType
make_slice base =
    cg_type TypeKind.slice pair_layout 0 (nested (cons base (cons u64_type nil))) none none

unfoldable pub make_array : CgType → ℕ → Option Bytes → CgType
make_array base n name =
    cg_type TypeKind.array (box (word (size base * n)) (align base)) n (nested (cons base nil)) none
      name

-- `PaddingInfo`: the array inside has a name of its own, `.Pad` and the number, which is left out.
unfoldable pub make_padding : ℕ → CgType
unfolding make_array
make_padding n =
    cg_type TypeKind.padding (box n 1) 0 (nested (cons (make_array u8_type n none) nil)) none none

-- `(offset + align_mask) & ~align_mask` with `align_mask = align - 1`.
abbrev pub align_mask : ℕ → ℕ
align_mask a = word (a + (2 ^ 64 - 1))

unfoldable pub align_up : ℕ → ℕ → ℕ
align_up offset a = bit_and (word (offset + align_mask a)) (2 ^ 64 - 1 - align_mask a)

-- The padding in front of an aligned offset, if there is any.
unfoldable pub pad_size : ℕ → ℕ → ℕ
pad_size offset aligned = word (aligned + 2 ^ 64 - offset)

unfoldable pub with_pad : ℕ → CgTypes → CgTypes
with_pad zero ts = ts
with_pad (suc n) ts = cons (make_padding (suc n)) ts

-- A field for a padding, where the tuple has fields.
abbrev pad_field : ℕ → OptFields → ConstFields → ConstFields
pad_field n no_fields fs = fs
pad_field zero (fields _) fs = fs
pad_field (suc n) (fields _) fs = field none no_init fs

-- `{field.name, field.init.copy()}`, in front of the fields behind.
abbrev copy_init : OptConst → OptConst
copy_init no_init = no_init
copy_init (init c) = elim (copy c) [ none ↦ no_init | some c' ↦ init c' ]

abbrev own_field : OptFields → ConstFields → ConstFields
own_field (fields (field n c _)) fs = field n (copy_init c) fs
own_field _ fs = fs

abbrev pub next_fields : OptFields → OptFields
next_fields (fields (field n c fs)) = fields fs
next_fields fs = fs

-- The loop over the types of a tuple: what it pads, their fields, and the offset and alignment
-- behind it.
pub record Placed : Type 0 where
  pub padded : CgTypes
  pub labels : ConstFields
  pub offset : ℕ
  pub alignment : ℕ

-- One type at an offset, in front of what is placed behind it.
unfoldable pub put_at : ℕ → ℕ → CgType → OptFields → Placed → Placed
put_at offset start t fs rest = record rest {
  padded = with_pad (pad_size offset start) (cons t rest.padded);
  labels = pad_field (pad_size offset start) fs (own_field fs rest.labels);
}

unfoldable pub place : ℕ → ℕ → CgTypes → OptFields → Placed
place offset al nil fs = record {
  padded = nil;
  labels = last_field;
  offset = offset;
  alignment = al;
}
place offset al (cons t ts) fs =
    let start = if is_va t then offset else align_up offset (align t) in
    put_at offset start t fs (
      place (if is_va t then offset else sum_size start (size t))
        (if is_va t then al else max_size al (align t)) ts (next_fields fs))

unfoldable pub append : CgTypes → CgTypes → CgTypes
append nil us = us
append (cons t ts) us = cons t (append ts us)

unfoldable pub append_fields : ConstFields → ConstFields → ConstFields
append_fields last_field gs = gs
append_fields (field n c fs) gs = field n c (append_fields fs gs)

-- The padding at the end has a field whether or not the tuple has fields.
unfoldable pub tuple_end : Placed → Placed
tuple_end p =
    let aligned = align_up p.offset p.alignment in
    let pad = pad_size p.offset aligned in
    record p {
      padded = append p.padded (with_pad pad nil);
      labels = append_fields p.labels (pad_field pad (fields last_field) last_field);
      offset = aligned;
    }

-- `TupleInfo`.
unfoldable pub make_tuple : CgTypes → OptFields → Option Bytes → CgType
make_tuple ts fs name =
    let p = tuple_end (place 0 0 ts fs) in
    cg_type TypeKind.tuple (box p.offset p.alignment) 0 (nested p.padded) (some p.labels) name

-- The loop of `UnionInfo`.
unfoldable pub union_layout : Layout → CgTypes → Layout
union_layout l nil = l
union_layout l (cons t ts) =
    let s = max_size l.size (size t) in union_layout (box s (max_size s (align t))) ts

-- The padding behind the tag is in LLVM's structure only.
unfoldable pub make_union : CgTypes → Option Bytes → CgType
make_union ts name =
    let l = union_layout (box 0 0) ts in
    cg_type TypeKind.union (box (word (l.size + 1)) l.align) 0 (nested ts) none name

unfoldable pub make_fn : CgType → CgType → CgType → CgType → CgType
make_fn objs args effects ret =
    cg_type TypeKind.fn ptr_layout 0 (nested (cons objs (cons args (cons effects (cons ret nil)))))
      none none

unfoldable pub make_va : CgType
make_va = cg_type TypeKind.va (box 0 0) 0 unnested none none

unfoldable pub make_atomic : CgType → Option Bytes → CgType
make_atomic base name = cg_type TypeKind.atomic (layout base) 0 (nested (cons base nil)) none name

abbrev pub copied_fields : Option ConstFields → CgType → Option Bytes → Option CgType
copied_fields none base name = none
copied_fields (some fs) base name =
    some (cg_type TypeKind.enum (layout base) 0 (nested (cons base nil)) (some fs) name)

unfoldable pub make_enum : CgType → ConstFields → Option Bytes → Option CgType
make_enum base fs name = copied_fields (copy_fields fs) base name

-- `CgType::addrof`.
unfoldable pub addrof : CgType → CgType
unfolding make_ptr
addrof t = make_ptr ptr_layout (some t) none
