-- ===== src/Memory/Blocks.antt =====
-- The blocks that the allocator of util/allocator.h gives out of its buffer.
use mathlib.Core.Path.{subst}
use rox.Prelude.{
  Bool-cases, ◌+◌, ◌%◌, ◌^◌, ◌≤◌, ◌<◌, ◌≡◌, refl, arith, inl, inr, Option, none, some, List, [],
  ◌∷◌, leb, ℕ,
}
use rox.Memory.Inline.{allocate_all, deallocate, start, round_up, Inline, allocate}

-- An offset of whole units within the buffer.
pub data IsInline (s : Inline) : Type 0 where
  is_inline :
      s.base % 16 ≡ 0
      → s.offset % 16 ≡ 0
      → s.offset ≤ s.capacity
      → s.base + s.capacity < 2 ^ 62
      → IsInline s

-- What an allocation gives: a block behind the offset and within the buffer, at a multiple of 16
-- bytes from its start, with the offset behind the block; or nothing, when the buffer is too full.
pub data Places (s : Inline) (n : ℕ) : Option ℕ × Inline → Type 0 where
  places :
      (a : ℕ) (t : Inline)
      → a % 16 ≡ 0
      → a ≡ s.base + s.offset
      → a + n ≤ t.base + t.offset
      → t.base + t.offset < s.base + s.capacity
      → t.base ≡ s.base
      → t.capacity ≡ s.capacity
      → IsInline t
      → Places s n (some a, t)
  places_none : s.capacity ≤ s.offset + round_up n → Places s n (none, s)

allocate-Places : (s : Inline) (n : ℕ) → IsInline s → n < 2 ^ 62 → Places s n (allocate s n)
unfolding allocate
allocate-Places s n (is_inline z m l b) h =
    elim (Bool-cases (leb s.capacity ((s.offset + round_up n) % 2 ^ 64))) [
      | inl e ↦ rw e (places_none (ground (arith, e)))
      | inr e ↦
          let f : (s.offset + round_up n) % 2 ^ 64 < s.capacity = ground (arith, e) in
          rw e (
            places _ _ (omega arith) refl (omega (arith, f)) (omega (arith, f)) refl refl
              (is_inline z (omega (arith, f)) (omega (arith, f)) b))
    ]

-- Blocks that were given, with their sizes: each within the bounds and none in another.
pub data Apart : ℕ → ℕ → List ℕ → List (Option ℕ) → Type 0 where
  apart_none : {lo : ℕ} {hi : ℕ} → Apart lo hi [] []
  apart_refused :
      {lo : ℕ} {hi : ℕ} (n : ℕ) {ns : List ℕ} {bs : List (Option ℕ)}
      → Apart lo hi ns bs
      → Apart lo hi (n ∷ ns) (none ∷ bs)
  apart :
      {lo : ℕ} {hi : ℕ} (n : ℕ) (a : ℕ) {ns : List ℕ} {bs : List (Option ℕ)}
      → lo ≤ a
      → a % 16 ≡ 0
      → a + n < hi
      → Apart (a + n) hi ns bs
      → Apart lo hi (n ∷ ns) (some a ∷ bs)

pub data AreSmall : List ℕ → Type 0 where
  small_none : AreSmall []
  small : (n : ℕ) {ns : List ℕ} → n < 2 ^ 62 → AreSmall ns → AreSmall (n ∷ ns)

allocate_all_from :
    (ns : List ℕ) (s : Inline) (lo hi : ℕ)
    → IsInline s
    → AreSmall ns
    → lo ≤ s.base + s.offset
    → s.base + s.capacity ≡ hi
    → Apart lo hi ns (allocate_all s ns)
unfolding allocate_all
allocate_all_from [] s lo hi w small_none l e = apart_none
allocate_all_from (n ∷ ns) s lo hi w (small _ h hs) l e =
    elim (allocate-Places s n w h) as (λ r x. Apart lo hi (n ∷ ns) (r.0 ∷ allocate_all r.1 ns)) [
      | places a t z b u v x y c ↦
          apart n a (omega arith) z (omega arith)
            (allocate_all_from ns t (a + n) hi c hs u (omega arith))
      | places_none f ↦ apart_refused n (allocate_all_from ns s lo hi w hs l e)
    ]

-- From an empty buffer at a multiple of 16, below 2 ^ 62, any sequence of requests of less than
-- 2 ^ 62 bytes is given blocks at multiples of 16 that lie within the buffer, one behind the
-- other with none in another, or null.
pub allocate_all-Apart :
    (ns : List ℕ) (base size : ℕ)
    → base % 16 ≡ 0
    → base + size + 16 < 2 ^ 62
    → AreSmall ns
    → Apart base (base + round_up size) ns (allocate_all (start base size) ns)
unfolding start
allocate_all-Apart ns base size z h l =
    allocate_all_from ns _ base _ (is_inline z refl (omega arith) (omega arith)) l (omega arith)
      refl

abbrev Past : ℕ → Option ℕ × Inline → Type 0
Past n (some a, t) = a + n ≤ t.base + t.offset
Past n (none, t) = Unit

Places-Past : (s : Inline) (n : ℕ) (r : Option ℕ × Inline) → Places s n r → Past n r
Places-Past s n _ (places a t z b u v x y c) = u
Places-Past s n _ (places_none f) = tt

-- A block of at least one byte that the inline allocator has just given is not taken back:
-- `deallocate` leaves the allocator as it is.
pub deallocate-allocate_inline :
    (s : Inline) (n a : ℕ) (t : Inline)
    → IsInline s
    → 0 < n
    → n < 2 ^ 62
    → allocate s n ≡ (some a, t)
    → deallocate t (some a) n ≡ t
unfolding deallocate
deallocate-allocate_inline s n a t w p h e =
    let u : a + n ≤ t.base + t.offset =
      subst (Past n) e (Places-Past s n _ (allocate-Places s n w h)) in
    ground (arith, u)
