-- ===== src/Memory/Fresh.antt =====
-- The pools that `Pool::make` of util/pool.cpp gives.
use native.Mathlib.Nat.{mul_comm, mul-le-mul_left}
use Prim.Native.Nat.{bit_and, bit_and-bitwise}
use rox.Prelude.{
  replicate, length-replicate, get_or, zero, suc, ◌+◌, ◌*◌, ◌/◌, ◌%◌, ◌^◌, ◌≤◌, ◌<◌, ◌≡◌, refl,
  arith, false, some, ◌==◌, not, ℕ,
}
use rox.Memory.Pool.{Pool, round_words, test, make}
use mathlib.Core.Path.{subst}
use mathlib.Core.Option
use rox.Memory.Slots.{IsPool, is_pool}
use rox.Types.Masks.{and_32}
use rox.Bits.{shifted}

round_words_lem : (n : ℕ) → n + 31 < 2 ^ 64 → round_words n ≡ (n + 31) / 32 * 32
round_words_lem n h = let e : (n + 31) % 2 ^ 64 ≡ n + 31 = omega arith in rw e (and_32 (n + 31) h)

get_or-zeros : (n i : ℕ) → get_or {A = ℕ} (replicate n 0) i 0 ≡ 0
get_or-zeros zero i = refl
get_or-zeros (suc n) zero = refl
get_or-zeros (suc n) (suc i) = get_or-zeros n i

zero_digit : (k w : ℕ) → w ≡ 0 → not (bit_and w (shifted k) == 0) ≡ false
zero_digit k w h =
    let e : bit_and 0 (shifted k) ≡ 0 = bit_and-bitwise 0 (shifted k) in rw h (rw e refl)

-- Room for the objects asked for, rounded up to less than one word more, with every slot free.
pub data IsFresh (n : ℕ) (p : Pool) : Type 0 where
  is_fresh :
      IsPool p
      → n ≤ p.object_count
      → p.object_count < n + 32
      → ((i : ℕ) → test p i ≡ false)
      → IsFresh n p

-- For objects of some size, and at least 31 fewer of them than 2 ^ 64, a pool whose storage and
-- words were given has a word for each 32 slots, as many slots as asked for and less than 32
-- more, and all of them are free.
pub make-IsFresh :
    (at words size n : ℕ) (p : Pool)
    → 0 < size
    → (n + 31) * size < 2 ^ 64
    → n + 31 < 2 ^ 64
    → make (some at) (some words) size n ≡ some p
    → IsFresh n p
unfolding make test
make-IsFresh at words size n p s z h e =
    let r = round_words_lem n h in
    let b : round_words n ≤ n + 31 = omega (arith, r) in
    let c : round_words n * size < 2 ^ 64 =
      rw (mul_comm (round_words n) size)
        (omega (arith, mul-le-mul_left size b, mul_comm (n + 31) size, z)) in
    let l = length-replicate {0} {A = ℕ} (round_words n / 32) 0 in
    subst (IsFresh n) (Option.some-injective _ _ e) (
      is_fresh (is_pool (omega (arith, r, l)) s c) (omega (arith, r)) (omega (arith, r))
        (λ i. zero_digit (i % 32) _ (get_or-zeros (round_words n / 32) (i / 32))))
