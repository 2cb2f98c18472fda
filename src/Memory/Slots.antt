-- ===== src/Memory/Slots.antt =====
-- The slots of a pool of util/pool.h, as its operations change them.
use mathlib.Core.Path.{subst}
use rox.Prelude.{
  ◌∙◌, length, set, get_or, ==_iff, ◌≢◌, zero, suc, ◌-◌, ◌*◌, ◌/◌, ◌%◌, ◌^◌, ◌<◌, ◌≡◌, refl, arith,
  false, List, [], ◌∷◌, ◌==◌, ◌&&◌, ◌||◌, not, ℕ, ℕ_discrete, ap,
}
use rox.Memory.Pool.{clear, mark, word_of, Pool, test}
use rox.Bits.{
  bit-shifted, bit-shifted_ne, shifted_bound, bit-bit_and, bit-bit_or, bit-complement, bit-mod,
  ones, shifted_pos, bit_bound, bit_and-shifted, shifted, bit,
}

-- A pool as `make` gives it: a word for each 32 slots, and objects of some size whose bytes are
-- counted in a word of 64 bits.
pub data IsPool (p : Pool) : Type 0 where
  is_pool :
      p.object_count ≡ 32 * length p.occupied
      → 0 < p.object_size
      → p.object_count * p.object_size < 2 ^ 64
      → IsPool p

get_or-set_self : (ws : List ℕ) (i v : ℕ) → i < length ws → get_or (set ws i v) i 0 ≡ v
get_or-set_self [] i v h = absurd (omega arith)
get_or-set_self (w ∷ ws) zero v h = refl
get_or-set_self (w ∷ ws) (suc i) v h = get_or-set_self ws i v (omega arith)

get_or-set_ne : (ws : List ℕ) (i j v : ℕ) → i ≢ j → get_or (set ws i v) j 0 ≡ get_or ws j 0
get_or-set_ne [] i j v h = refl
get_or-set_ne (w ∷ ws) zero zero v h = absurd (h refl)
get_or-set_ne (w ∷ ws) zero (suc j) v h = refl
get_or-set_ne (w ∷ ws) (suc i) zero v h = refl
get_or-set_ne (w ∷ ws) (suc i) (suc j) v h = get_or-set_ne ws i j v (λ e. h (ap suc e))

-- A slot is taken if its digit is 1.
test-bit : (p : Pool) (i : ℕ) → test p i ≡ (bit (i % 32) (word_of p i) == 1)
unfolding test
test-bit p i =
    rw (bit_and-shifted (i % 32) (word_of p i))
      (digit (bit (i % 32) (word_of p i)) (bit_bound (i % 32) (word_of p i)))
  where
    digit : (b : ℕ) → b < 2 → not (b * shifted (i % 32) == 0) ≡ (b == 1)
    digit zero h = ground arith
    digit (suc zero) h = ground (arith, shifted_pos (i % 32))
    digit (suc (suc b)) h = absurd (omega arith)

-- The digit of a slot.
abbrev digit_of : Pool → ℕ → ℕ
digit_of p i = bit (i % 32) (word_of p i)

cut : (k x : ℕ) → k < 32 → bit k (x % 2 ^ 32) ≡ bit k x
unfolding shifted
cut k x h = bit-mod k 32 x h

complement : (j k : ℕ) → j < 64 → k < 64 → bit j (2 ^ 64 - 1 - shifted k) ≡ 1 - bit j (shifted k)
unfolding ones
complement j k h l = bit-complement j 64 (shifted k) h (shifted_bound k 64 l)

-- A word that changes at one slot keeps the digits of the others.
set_digit :
    (ws : List ℕ) (i j v : ℕ)
    → i / 32 < length ws
    → i ≢ j
    → ((k : ℕ) → k < 32 → k ≢ i % 32 → bit k v ≡ bit k (get_or ws (i / 32) 0))
    → bit (j % 32) (get_or (set ws (i / 32) v) (j / 32) 0) ≡ bit (j % 32) (get_or ws (j / 32) 0)
set_digit ws i j v l h same = elim (ℕ_discrete (i / 32) (j / 32)) [
  | no p ↦ rw (get_or-set_ne ws (i / 32) (j / 32) v p)
  | yes p ↦ cc (p, get_or-set_self ws (i / 32) v l, same (j % 32) (omega arith) (omega arith))
]

-- Marking and clearing change the digit of one slot.
mark_digit : (p : Pool) (i : ℕ) → i / 32 < length p.occupied → digit_of (mark p i) i ≡ 1
unfolding mark
mark_digit p i h = rw (get_or-set_self p.occupied (i / 32) _ h) (
    cut (i % 32) _ (omega arith)
    ∙ omega (
      arith,
      bit-bit_or (i % 32) (word_of p i) (shifted (i % 32)),
      bit-shifted (i % 32),
      bit_bound (i % 32) (word_of p i),
    ))

mark_digit_ne :
    (p : Pool) (i j : ℕ) → i / 32 < length p.occupied → i ≢ j → digit_of (mark p i) j ≡ digit_of p j
unfolding mark
mark_digit_ne p i j h n = set_digit p.occupied i j _ h n (λ k l m.
    cut k _ l
    ∙ omega (arith, bit-bit_or k (word_of p i) (shifted (i % 32)), bit-shifted_ne k (i % 32) m))

clear_digit : (p : Pool) (i : ℕ) → i / 32 < length p.occupied → digit_of (clear p i) i ≡ 0
unfolding clear
clear_digit p i h = rw (get_or-set_self p.occupied (i / 32) _ h) (
    cut (i % 32) _ (omega arith)
    ∙ omega (
      arith,
      bit-bit_and (i % 32) (word_of p i) (2 ^ 64 - 1 - shifted (i % 32)),
      bit-shifted (i % 32),
      complement (i % 32) (i % 32) (omega arith) (omega arith),
    ))

clear_digit_ne :
    (p : Pool) (i j : ℕ)
    → i / 32 < length p.occupied
    → i ≢ j
    → digit_of (clear p i) j ≡ digit_of p j
unfolding clear
clear_digit_ne p i j h n = set_digit p.occupied i j _ h n (λ k l m.
    cut k _ l
    ∙ omega (
      arith,
      bit-bit_and k (word_of p i) (2 ^ 64 - 1 - shifted (i % 32)),
      bit-shifted_ne k (i % 32) m,
      complement k (i % 32) (omega arith) (omega arith),
      bit_bound k (word_of p i),
    ))

slot_word : (p : Pool) (i : ℕ) → IsPool p → i < p.object_count → i / 32 < length p.occupied
slot_word p i (is_pool e s z) h = omega arith

pub ==_no : (i j : ℕ) → i ≢ j → (i == j) ≡ false
==_no i j h = ground (arith, h)

test_marked :
    (i j d d' : ℕ) → (i ≡ j → d' ≡ 1) → (i ≢ j → d' ≡ d) → (d' == 1) ≡ ((i == j) || (d == 1))
test_marked i j d d' e n = elim (ℕ_discrete i j) [
  | yes h ↦ rw ((==_iff i j).1 h, e h) refl
  | no h ↦ rw (==_no i j h, n h) refl
]

test_cleared :
    (i j d d' : ℕ) → (i ≡ j → d' ≡ 0) → (i ≢ j → d' ≡ d) → (d' == 1) ≡ (not (i == j) && (d == 1))
test_cleared i j d d' e n = elim (ℕ_discrete i j) [
  | yes h ↦ rw ((==_iff i j).1 h, e h) refl
  | no h ↦ rw (==_no i j h, n h) refl
]

pub test-mark :
    (p : Pool) (i j : ℕ)
    → IsPool p
    → i < p.object_count
    → test (mark p i) j ≡ ((i == j) || test p j)
test-mark p i j w h =
    rw (test-bit (mark p i) j, test-bit p j)
      (test_marked i j (digit_of p j) (digit_of (mark p i) j)
        (λ e. subst (λ x. digit_of (mark p i) x ≡ 1) e (mark_digit p i (slot_word p i w h)))
        (mark_digit_ne p i j (slot_word p i w h)))

pub test-clear :
    (p : Pool) (i j : ℕ)
    → IsPool p
    → i < p.object_count
    → test (clear p i) j ≡ (not (i == j) && test p j)
test-clear p i j w h =
    rw (test-bit (clear p i) j, test-bit p j)
      (test_cleared i j (digit_of p j) (digit_of (clear p i) j)
        (λ e. subst (λ x. digit_of (clear p i) x ≡ 0) e (clear_digit p i (slot_word p i w h)))
        (clear_digit_ne p i j (slot_word p i w h)))
