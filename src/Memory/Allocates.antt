-- ===== src/Memory/Allocates.antt =====
-- What `Pool::allocate` and `Pool::deallocate` of util/pool.cpp do to the slots of a pool.
use native.Mathlib.Nat.{mul_comm, mul-le-mul_left, mul-div_right}
use rox.Memory.Slots.{==_no, test-clear, is_pool}
use Prim.Native.Nat.{bit_or}
use mathlib.Core.Path.{subst}
use mathlib.Core.Option
use rox.Prelude.{
  ◌∙◌, length-set, ==_iff, Bool-cases, zero, suc, ◌+◌, ◌-◌, ◌*◌, ◌/◌, ◌%◌, ◌^◌, ◌≤◌, ◌<◌, ◌≡◌, refl,
  arith, inl, inr, true, false, Option, none, some, ◌==◌, ltb, ◌&&◌, ◌||◌, not, ℕ, ℕ_discrete, ap,
}
use rox.Memory.Pool.{
  word_of, clear, taken_at, test, Pool, address, allocate, deallocate, free_from, mark,
}
use rox.Memory.Slots.{test-mark, IsPool}
use rox.Bits.{shifted}

-- What the search for a free slot finds.
data Finds (p : Pool) (n : ℕ) (i : ℕ) : Option ℕ → Type 0 where
  finds :
      (k : ℕ)
      → i ≤ k
      → k < i + n
      → test p k ≡ false
      → ((j : ℕ) → i ≤ j → j < k → test p j ≡ true)
      → Finds p n i (some k)
  finds_none : ((j : ℕ) → i ≤ j → j < i + n → test p j ≡ true) → Finds p n i none

later :
    (p : Pool) (n i : ℕ) (o : Option ℕ)
    → test p i ≡ true
    → Finds p n (suc i) o
    → Finds p (suc n) i o
later p n i _ h (finds k l u f e) =
    finds k (omega arith) (omega arith) f
      (λ j a b. elim (ℕ_discrete i j) [ yes q ↦ cc (q, h) | no q ↦ e j (omega arith) b ])
later p n i _ h (finds_none e) =
    finds_none (λ j a b. elim (ℕ_discrete i j) [
      | yes q ↦ cc (q, h)
      | no q ↦ e j (omega arith) (omega arith)
    ])

free_from-Finds : (n i : ℕ) (p : Pool) → Finds p n i (free_from n i p)
unfolding free_from
free_from-Finds zero i p = finds_none (λ j a b. absurd (omega arith))
free_from-Finds (suc n) i p = elim (Bool-cases (test p i)) [
  | inl h ↦ rw h (later p n i _ h (free_from-Finds n (suc i) p))
  | inr h ↦ rw h (finds i (omega arith) (omega arith) h (λ j a b. absurd (omega arith)))
]

-- The same objects in another state.
abbrev pub SameObjects : Pool → Pool → Type 0
SameObjects p q =
    (q.object_size ≡ p.object_size) × (q.object_count ≡ p.object_count) × (q.storage ≡ p.storage)

-- The first free slot is given and taken, and no other slot changes; or there is none.
pub data Allocates (p : Pool) : Option (ℕ × Pool) → Type 0 where
  gives :
      (k a : ℕ) (q : Pool)
      → k < p.object_count
      → a ≡ p.storage + p.object_size * k
      → test p k ≡ false
      → ((j : ℕ) → j < k → test p j ≡ true)
      → SameObjects p q
      → IsPool q
      → ((j : ℕ) → test q j ≡ ((k == j) || test p j))
      → Allocates p (some (a, q))
  gives_none : ((j : ℕ) → j < p.object_count → test p j ≡ true) → Allocates p none

mark-IsPool : (p : Pool) (i : ℕ) → IsPool p → IsPool (mark p i)
unfolding mark
mark-IsPool p i (is_pool e s z) =
    is_pool
      (rw (length-set p.occupied (i / 32) (bit_or (word_of p i) (shifted (i % 32)) % 2 ^ 32)) e) s z

mark-SameObjects : (p : Pool) (i : ℕ) → SameObjects p (mark p i)
unfolding mark
mark-SameObjects p i = (refl, refl, refl)

slot_end :
    (p : Pool) (k : ℕ) → k < p.object_count → p.object_size * k ≤ p.object_count * p.object_size
slot_end p k h =
    rw (mul_comm p.object_count p.object_size) (mul-le-mul_left p.object_size (omega arith))

-- The address of a slot, with no wrap-around.
address_lem :
    (p : Pool) (k : ℕ) → IsPool p → k < p.object_count → address p k ≡ p.storage + p.object_size * k
unfolding address
address_lem p k (is_pool e s z) h =
    let m : p.object_size * k ≤ p.object_count * p.object_size = slot_end p k h in omega arith

taken_at-Allocates :
    (p : Pool) (o : Option ℕ) → IsPool p → Finds p p.object_count 0 o → Allocates p (taken_at p o)
unfolding address
taken_at-Allocates p _ w (finds k l u f e) =
    gives k _ (mark p k) (omega arith) (address_lem p k w (omega arith)) f
      (λ j h. e j (omega arith) h) (mark-SameObjects p k) (mark-IsPool p k w)
      (λ j. test-mark p k j w (omega arith))
taken_at-Allocates p _ w (finds_none e) = gives_none (λ j h. e j (omega arith) (omega arith))

-- Of a pool with a word for each 32 slots and objects of some size, less than 2 ^ 64 bytes in
-- all, `allocate` gives the address of the first free slot, with a pool of the same objects in
-- which that slot is taken besides those that were; it gives null if every slot is taken.
pub allocate-Allocates : (p : Pool) → IsPool p → Allocates p (allocate p)
unfolding allocate
allocate-Allocates p w = taken_at-Allocates p _ w (free_from-Finds p.object_count 0 p)

-- The address of a slot leads back to it.
slot_back : (s n k : ℕ) → 0 < n → (s + n * k - s) / n ≡ k
slot_back s n k h = let e : s + n * k - s ≡ n * k = omega arith in rw e (mul-div_right k h)

pub deallocate-address :
    (p : Pool) (k : ℕ)
    → IsPool p
    → k < p.object_count
    → deallocate p (address p k) ≡ (true, clear p k)
unfolding deallocate
deallocate-address p k (is_pool e s z) h =
    let a : ltb (p.storage + p.object_size * k) p.storage ≡ false = ground arith in
    let m : p.object_size * k ≤ p.object_count * p.object_size = slot_end p k h in
    let c : p.object_count * p.object_size % 2 ^ 64 ≡ p.object_count * p.object_size =
      omega arith in
    let b : ltb (p.storage + p.object_count * p.object_size) (p.storage + p.object_size * k)
        ≡ false =
      ground (arith, m) in
    rw (address_lem p k (is_pool e s z) h, c, a, b, slot_back p.storage p.object_size k s)

untouched :
    (p : Pool) (k j : ℕ) → test p k ≡ false → not (k == j) && ((k == j) || test p j) ≡ test p j
untouched p k j f = elim (ℕ_discrete k j) [
  | yes e ↦ rw ((==_iff k j).1 e) (cc (e, f))
  | no n ↦ rw (==_no k j n)
]

abbrev Freed : Pool → ℕ × Pool → Type 0
Freed p x = ((deallocate x.1 x.0).0 ≡ true) × ((j : ℕ) → test (deallocate x.1 x.0).1 j ≡ test p j)

freed :
    (p q : Pool) (k : ℕ)
    → IsPool q
    → k < q.object_count
    → test p k ≡ false
    → ((j : ℕ) → test q j ≡ ((k == j) || test p j))
    → Freed p (address q k, q)
freed p q k w h f t =
    rw (deallocate-address q k w h)
      (refl, λ j. test-clear q k j w h ∙ (rw (t j) (untouched p k j f)))

Freed-allocated :
    (p : Pool) (o : Option (ℕ × Pool)) (x : ℕ × Pool) → Allocates p o → o ≡ some x → Freed p x
unfolding address
Freed-allocated p _ x (gives k b r l e f g (m, n, s) v t) h =
    let c : k < r.object_count = omega arith in
    let at : ◌≡◌ {A = ℕ × Pool} (address r k, r) (b, r) =
      ap (λ z. (z, r)) (address_lem r k v c ∙ (rw (m, s, e))) in
    subst (Freed p) (at ∙ Option.some-injective _ _ h) (freed p r k v (omega arith) f t)
Freed-allocated p _ x (gives_none e) h = absurd (cc h)

-- To give back the address that such a pool has just given succeeds, and then exactly the slots
-- are taken that were taken before.
pub deallocate-allocate :
    (p : Pool) (a : ℕ) (q : Pool)
    → IsPool p
    → allocate p ≡ some (a, q)
    → ((deallocate q a).0 ≡ true) × ((j : ℕ) → test (deallocate q a).1 j ≡ test p j)
deallocate-allocate p a q w h = Freed-allocated p _ (a, q) (allocate-Allocates p w) h
