-- ===== src/Types/Places.antt =====
-- Where a tuple places its fields, as cg_type.cpp's `make(TupleInfo)` packs them.
use mathlib.Core.Path.{subst}
use rox.Prelude.{false, arith, ◌^◌, ◌<◌, ◌≡◌, ◌≤◌, ◌%◌, ℕ, zero, suc, ◌+◌, Option, some}
use rox.Types.Masks.{IsAlignment}
use rox.Types.{
  nested, TypeKind, cg_type, Bytes, types, is_va, is_padding, cons, size, align, nil, CgType,
  CgTypes,
}
use rox.Types.Make.{
  box, append, make_tuple, next_fields, tuple_end, sum_size, Placed, max_size, place, put_at,
  align_up, make_padding, pad_size, with_pad,
}
use rox.Const.{OptFields}
use rox.Types.Aligns.{
  max_upper, Rounds, align_up-Rounds, alignment_divides, alignment_small, max-IsAlignment,
}

-- A type that is neither padding nor variadic, with a size that is a multiple of its alignment.
pub data IsLaidOut : CgType → Type 0 where
  laid_out :
      (t : CgType)
      → IsAlignment (align t)
      → size t % align t ≡ 0
      → is_padding t ≡ false
      → is_va t ≡ false
      → IsLaidOut t

pub data AreLaidOut : CgTypes → Type 0 where
  all_nil : AreLaidOut nil
  all_cons : {t : CgType} {ts : CgTypes} → IsLaidOut t → AreLaidOut ts → AreLaidOut (cons t ts)

-- What the types take at most, with padding.
unfoldable pub room : CgTypes → ℕ
room nil = 0
room (cons t ts) = size t + 8 + room ts

-- A packed structure from one offset to another: each field follows the one in front of it, at a
-- multiple of its own alignment.
pub data Sits : ℕ → CgTypes → ℕ → Type 0 where
  sits_none : (o : ℕ) → Sits o nil o
  sits :
      {o : ℕ} {e : ℕ} (t : CgType) {ts : CgTypes}
      → o % align t ≡ 0
      → Sits (o + size t) ts e
      → Sits o (cons t ts) e

pad_size_lem : (o s : ℕ) → o ≤ s → s < 2 ^ 64 → pad_size o s + o ≡ s
unfolding pad_size
pad_size_lem o s p q = omega arith

with_pad-Sits :
    (n : ℕ) {o : ℕ} {s : ℕ} {e : ℕ} (ts : CgTypes)
    → n + o ≡ s
    → Sits s ts e
    → Sits o (with_pad n ts) e
unfolding with_pad make_padding
with_pad-Sits zero {o} {s} {e} ts h r = subst (λ x. Sits x ts e) (omega arith) r
with_pad-Sits (suc n) {o} {s} {e} ts h r =
    sits (make_padding (suc n)) (omega arith) (subst (λ x. Sits x ts e) (omega arith) r)

put_at-Sits :
    (o s : ℕ) (t : CgType) (fs : OptFields) (p : Placed) {e : ℕ}
    → o ≤ s
    → s < 2 ^ 64
    → s % align t ≡ 0
    → Sits (s + size t) p.padded e
    → Sits o (put_at o s t fs p).padded e
unfolding put_at
put_at-Sits o s t fs p h l m r =
    with_pad-Sits (pad_size o s) (cons t p.padded) (pad_size_lem o s h l) (sits t m r)

-- The alignment of the loop, none at first.
data Seen : ℕ → Type 0 where
  unseen : Seen 0
  seen : {a : ℕ} → IsAlignment a → Seen a

max-Seen : (a b : ℕ) → Seen a → IsAlignment b → IsAlignment (max_size a b)
max-Seen _ b unseen q = subst IsAlignment (ground arith) q
max-Seen a b (seen p) q = max-IsAlignment a b p q

-- Every alignment of the list is at most this one.
data Covers (a : ℕ) : CgTypes → Type 0 where
  covers_nil : Covers a nil
  covers : (t : CgType) {ts : CgTypes} → align t ≤ a → Covers a ts → Covers a (cons t ts)

-- The alignments of the list divide this one.
pub data AllDivide (a : ℕ) : CgTypes → Type 0 where
  divide_nil : AllDivide a nil
  divide : (t : CgType) {ts : CgTypes} → a % align t ≡ 0 → AllDivide a ts → AllDivide a (cons t ts)

Covers-divide :
    (a : ℕ) (ts : CgTypes) → IsAlignment a → AreLaidOut ts → Covers a ts → AllDivide a ts
Covers-divide a nil p all_nil covers_nil = divide_nil
Covers-divide a (cons t ts) p (all_cons (laid_out _ b m np nv) hs) (covers _ l c) =
    divide t (alignment_divides a (align t) p b l) (Covers-divide a ts p hs c)

-- What the loop gives, from an offset and an alignment.
data Behind (o : ℕ) (al : ℕ) (ts : CgTypes) (p : Placed) : Type 0 where
  behind :
      Sits o p.padded p.offset
      → p.offset ≤ o + room ts
      → Seen p.alignment
      → al ≤ p.alignment
      → Covers p.alignment ts
      → Behind o al ts p

put_at-Behind :
    (o s al : ℕ) (t : CgType) (ts : CgTypes) (fs : OptFields) (p : Placed)
    → IsAlignment (align t)
    → Rounds o (align t) s
    → o + room (cons t ts) + 8 < 2 ^ 64
    → Behind (s + size t) (max_size al (align t)) ts p
    → Behind o al (cons t ts) (put_at o s t fs p)
unfolding room put_at
put_at-Behind o s al t ts fs p a (d, l, g) h (behind w r q u c) =
    let b = alignment_small (align t) a in
    let v = max_upper al (align t) in
    behind (put_at-Sits o s t fs p l (omega arith) d w) (omega arith) q (omega arith)
      (covers t (omega arith) c)

place-Behind :
    (ts : CgTypes) (o al : ℕ) (fs : OptFields)
    → AreLaidOut ts
    → o + room ts + 8 < 2 ^ 64
    → Seen al
    → Behind o al ts (place o al ts fs)
unfolding place room
place-Behind nil o al fs all_nil h s = behind (sits_none o) (omega arith) s (omega arith) covers_nil
place-Behind (cons t ts) o al fs (all_cons (laid_out _ a m np nv) hs) h s =
    let (d, l, g) = align_up-Rounds o (align t) a (omega arith) in
    let b = alignment_small (align t) a in
    let at = align_up o (align t) in
    let sum : sum_size at (size t) ≡ at + size t = omega arith in
    rw (nv, sum)
      (put_at-Behind o at al t ts fs _ a (d, l, g) h
        (place-Behind ts (at + size t) (max_size al (align t)) (next_fields fs) hs (omega arith)
          (seen (max-Seen al (align t) s a))))

append-Sits :
    (ts us : CgTypes) {o : ℕ} {m : ℕ} {e : ℕ} → Sits o ts m → Sits m us e → Sits o (append ts us) e
unfolding append
append-Sits nil us (sits_none o) r = r
append-Sits (cons t ts) us (sits _ d w) r = sits t d (append-Sits ts us w r)

-- A list with a type that is laid out has an alignment.
Seen-one : (a : ℕ) (t : CgType) → Seen a → IsAlignment (align t) → align t ≤ a → IsAlignment a
Seen-one _ t unseen b h = let p = alignment_small (align t) b in absurd (omega arith)
Seen-one a t (seen p) b h = p

-- What a tuple is: packed from 0 to its size, a multiple of its alignment, which is a multiple of
-- that of each type.
pub data IsPacked (ts : CgTypes) (t : CgType) : Type 0 where
  packed :
      Sits 0 (types t) (size t)
      → IsAlignment (align t)
      → size t % align t ≡ 0
      → AllDivide (align t) ts
      → IsPacked ts t

tuple_end-IsPacked :
    (t : CgType) (ts : CgTypes) (name : Option Bytes) (p : Placed)
    → AreLaidOut (cons t ts)
    → room (cons t ts) + 16 < 2 ^ 64
    → Behind 0 0 (cons t ts) p
    → IsPacked (cons t ts) (
        cg_type TypeKind.tuple
          (box (tuple_end p).offset (tuple_end p).alignment)
          0
          (nested (tuple_end p).padded)
          (some (tuple_end p).labels)
          name)
unfolding tuple_end
tuple_end-IsPacked t ts name p (all_cons (laid_out _ a m np nv) hs) h
      (behind w r q u (covers _ l c)) =
    let b = Seen-one p.alignment t q a l in
    let (d, lo, hi) = align_up-Rounds p.offset p.alignment b (omega arith) in
    let sm = alignment_small p.alignment b in
    packed
      (append-Sits p.padded _ w
        (with_pad-Sits _ nil (pad_size_lem p.offset _ lo (omega arith)) (sits_none _)))
      b d
      (Covers-divide p.alignment (cons t ts) b (all_cons (laid_out t a m np nv) hs) (covers t l c))

-- A tuple of at least one type, none of them padding or variadic, each with an alignment of 1,
-- 2, 4 or 8 that divides its size, and with 8 bytes to spare for each and 16 more below 2 ^ 64,
-- is a packed structure in which every field starts at a multiple of its alignment; the fields
-- fill the size of the layout, which is a multiple of the alignment of the layout, again 1, 2, 4
-- or 8 and a multiple of that of each type.
pub make_tuple-IsPacked :
    (t : CgType) (ts : CgTypes) (fs : OptFields) (name : Option Bytes)
    → AreLaidOut (cons t ts)
    → room (cons t ts) + 16 < 2 ^ 64
    → IsPacked (cons t ts) (make_tuple (cons t ts) fs name)
unfolding make_tuple
make_tuple-IsPacked t ts fs name l h =
    tuple_end-IsPacked t ts name _ l h (place-Behind (cons t ts) 0 0 fs l (omega arith) unseen)
