-- ===== src/Types/Unions.antt =====
-- cg_type.cpp: the layout of a union, and the packed structure that stands for it in LLVM.
use rox.Prelude.{ℕ, ◌+◌, ◌-◌, ◌^◌, ◌≤◌, ◌<◌, ◌≡◌, arith, Option, none}
use rox.Types.{align, size, Bytes, CgType, CgTypes, Layout, nil, cons}
use rox.Types.Make.{
  align_up, pad_size, with_pad, box, u8_type, make_array, max_size, word, make_union, union_layout,
}
use rox.Types.Aligns.{max_upper}

-- The structure: the largest type's bytes, the tag, and a padding where there is one.
unfoldable pub union_body : Layout → CgTypes
union_body l =
    let offset = word (l.size + 1) in
    cons (make_array u8_type l.size none)
      (cons u8_type (with_pad (pad_size offset (align_up offset l.align)) nil))

-- Every type of a list is smaller than a size.
pub data AllBelow (n : ℕ) : CgTypes → Type 0 where
  below_nil : AllBelow n nil
  below : (t : CgType) {ts : CgTypes} → size t < n → AllBelow n ts → AllBelow n (cons t ts)

-- What the loop makes of a size: at least as much, and at least what each type takes.
data Grown (s : ℕ) (m : ℕ) (ts : CgTypes) : Type 0 where
  grown : s ≤ m → AllBelow (m + 1) ts → Grown s m ts

union_layout-Grown : (ts : CgTypes) (l : Layout) → Grown l.size (union_layout l ts).size ts
unfolding union_layout
union_layout-Grown nil l = grown (omega arith) below_nil
union_layout-Grown (cons t ts) l =
    let m = max_size l.size (size t) in
    let (a, b) = max_upper l.size (size t) in
    elim (union_layout-Grown ts (box m (max_size m (align t)))) [
      | grown p q ↦ grown (omega arith) (below t (omega arith) q)
    ]

union_layout_bound :
    (ts : CgTypes) (l : Layout) (n : ℕ) → l.size < n → AllBelow n ts → (union_layout l ts).size < n
unfolding union_layout
union_layout_bound nil l n h below_nil = h
union_layout_bound (cons t ts) l n h (below _ p ps) = union_layout_bound ts _ n (ground arith) ps

-- Where every type is smaller than 2 ^ 64 - 1, each is smaller than the union that is made of
-- them, which has room for the tag behind it.
pub make_union-AllBelow :
    (ts : CgTypes) (name : Option Bytes)
    → AllBelow (2 ^ 64 - 1) ts
    → AllBelow (size (make_union ts name)) ts
unfolding make_union
make_union-AllBelow ts name h =
    let b = union_layout_bound ts (box 0 0) (2 ^ 64 - 1) (omega arith) h in
    let e : word ((union_layout (box 0 0) ts).size + 1) ≡ (union_layout (box 0 0) ts).size + 1 =
      omega arith in
    elim (union_layout-Grown ts (box 0 0)) [ grown p q ↦ rw e q ]
