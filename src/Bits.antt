-- ===== src/Bits.antt =====
-- Binary digits of native numbers: the laws of the machine's and, or and complement that the other
-- modules need.
use native.Mathlib.Nat.{div-add-mod, mod-lt, mod-eq_of_lt, mul-add-mod_self_left}
use rox.Prelude.{
  ◌∙◌, ◌≢◌, zero, suc, ◌+◌, ◌-◌, ◌*◌, ◌/◌, ◌%◌, ◌≤◌, ◌<◌, ◌≡◌, refl, arith, ℕ, ℕ_discrete, ap, sym,
}
use Prim.Native.Nat.{min, max, digits, bitwise, bit_and, bit_or, bit_and-bitwise, bit_or-bitwise}

module _ (z : ℕ → ℕ) (f : ℕ → ℕ → ℕ) where
  -- A count of digits that is large enough may be larger by one.
  digits_more : (n a b : ℕ) → a ≤ n → digits z f (suc n) a b ≡ digits z f n a b
  digits_more zero zero b h = refl
  digits_more zero (suc a) b h = absurd (omega arith)
  digits_more (suc n) zero b h = refl
  digits_more (suc n) (suc a) b h =
      ap (λ d. d * 2 + f (suc a % 2) (b % 2)) (digits_more n (suc a / 2) (b / 2) (omega arith))

  digits_enough : (n a b : ℕ) → a ≤ n → digits z f n a b ≡ bitwise z f a b
  digits_enough zero zero b h = refl
  digits_enough zero (suc a) b h = absurd (omega arith)
  digits_enough (suc n) a b h = elim (ℕ_discrete a (suc n)) [
    | yes p ↦ cc p
    | no p ↦ digits_more n a b (omega arith) ∙ digits_enough n a b (omega arith)
  ]

-- The law of the lowest digit.
pub bit_and_step : (a b : ℕ) → bit_and a b ≡ bit_and (a / 2) (b / 2) * 2 + min (a % 2) (b % 2)
bit_and_step zero b = omega (arith, bit_and-bitwise 0 b, bit_and-bitwise 0 (b / 2))
bit_and_step (suc a) b = omega (
  arith,
  bit_and-bitwise (suc a) b,
  bit_and-bitwise (suc a / 2) (b / 2),
  digits_enough (λ b. zero) min a (suc a / 2) (b / 2) (omega arith),
)

pub bit_or_step : (a b : ℕ) → bit_or a b ≡ bit_or (a / 2) (b / 2) * 2 + max (a % 2) (b % 2)
bit_or_step zero b = omega (arith, bit_or-bitwise 0 b, bit_or-bitwise 0 (b / 2))
bit_or_step (suc a) b = omega (
  arith,
  bit_or-bitwise (suc a) b,
  bit_or-bitwise (suc a / 2) (b / 2),
  digits_enough (λ b. b) max a (suc a / 2) (b / 2) (omega arith),
)

-- The digit at a position.
unfoldable pub bit : ℕ → ℕ → ℕ
bit zero a = a % 2
bit (suc k) a = bit k (a / 2)

pub bit-bit_and : (k a b : ℕ) → bit k (bit_and a b) ≡ min (bit k a) (bit k b)
unfolding bit
bit-bit_and zero a b = omega (arith, bit_and_step a b)
bit-bit_and (suc k) a b =
    let half : bit_and a b / 2 ≡ bit_and (a / 2) (b / 2) = omega (arith, bit_and_step a b) in
    rw half (bit-bit_and k (a / 2) (b / 2))

pub bit-bit_or : (k a b : ℕ) → bit k (bit_or a b) ≡ max (bit k a) (bit k b)
unfolding bit
bit-bit_or zero a b = omega (arith, bit_or_step a b)
bit-bit_or (suc k) a b =
    let half : bit_or a b / 2 ≡ bit_or (a / 2) (b / 2) = omega (arith, bit_or_step a b) in
    rw half (bit-bit_or k (a / 2) (b / 2))

pub bit_bound : (k a : ℕ) → bit k a < 2
unfolding bit
bit_bound zero a = omega arith
bit_bound (suc k) a = bit_bound k (a / 2)

-- `1 << k`.
unfoldable pub shifted : ℕ → ℕ
shifted zero = 1
shifted (suc k) = shifted k * 2

pub bit-zero : (k : ℕ) → bit k 0 ≡ 0
unfolding bit
bit-zero zero = refl
bit-zero (suc k) = bit-zero k

pub bit-shifted : (k : ℕ) → bit k (shifted k) ≡ 1
unfolding bit shifted
bit-shifted zero = refl
bit-shifted (suc k) =
    let half : shifted k * 2 / 2 ≡ shifted k = omega arith in rw half (bit-shifted k)

pub bit-shifted_ne : (j k : ℕ) → j ≢ k → bit j (shifted k) ≡ 0
unfolding bit shifted
bit-shifted_ne zero zero h = absurd (h refl)
bit-shifted_ne zero (suc k) h = omega arith
bit-shifted_ne (suc j) zero h = bit-zero j
bit-shifted_ne (suc j) (suc k) h =
    let half : shifted k * 2 / 2 ≡ shifted k = omega arith in
    rw half (bit-shifted_ne j k (omega arith))

-- n ones.
unfoldable pub ones : ℕ → ℕ
ones zero = 0
ones (suc n) = ones n * 2 + 1

pub bit-complement : (j n a : ℕ) → j < n → a ≤ ones n → bit j (ones n - a) ≡ 1 - bit j a
unfolding bit ones
bit-complement j zero a h l = absurd (omega arith)
bit-complement zero (suc n) a h l = omega arith
bit-complement (suc j) (suc n) a h l =
    let half : (ones n * 2 + 1 - a) / 2 ≡ ones n - a / 2 = omega arith in
    rw half (bit-complement j n (a / 2) (omega arith) (omega arith))

pub shifted_bound : (k n : ℕ) → k < n → shifted k ≤ ones n
unfolding shifted ones
shifted_bound k zero h = absurd (omega arith)
shifted_bound zero (suc n) h = omega arith
shifted_bound (suc k) (suc n) h = omega (arith, shifted_bound k n (omega arith))

digits-zero : (n a : ℕ) → digits (λ b. zero) min n a 0 ≡ 0
digits-zero zero a = refl
digits-zero (suc n) zero = refl
digits-zero (suc n) (suc a) = omega (arith, digits-zero n (suc a / 2))

pub bit_and_zero : (a : ℕ) → bit_and a 0 ≡ 0
bit_and_zero a = bit_and-bitwise a 0 ∙ digits-zero a a

-- A mask of one digit keeps the digit in its place.
pub bit_and-shifted : (k a : ℕ) → bit_and a (shifted k) ≡ bit k a * shifted k
unfolding bit shifted
bit_and-shifted zero a = omega (arith, bit_and_step a 1, bit_and_zero (a / 2))
bit_and-shifted (suc k) a =
    let half : shifted k * 2 / 2 ≡ shifted k = omega arith in
    let rest : bit_and (a / 2) (shifted k * 2 / 2) ≡ bit k (a / 2) * shifted k =
      rw half (bit_and-shifted k (a / 2)) in
    omega (arith, bit_and_step a (shifted k * 2), rest)

pub shifted_pos : (k : ℕ) → 0 < shifted k
unfolding shifted
shifted_pos zero = omega arith
shifted_pos (suc k) = omega (arith, shifted_pos k)

half_mod : (x m : ℕ) → 0 < m → x % (m * 2) / 2 ≡ x / 2 % m
half_mod x m h =
    let e : m * 2 * (x / (m * 2)) + x % (m * 2) ≡ x = div-add-mod x (m * 2) in
    let r : x % (m * 2) < m * 2 = mod-lt x (omega arith) in
    let q : x / 2 ≡ m * (x / (m * 2)) + x % (m * 2) / 2 = omega (arith, e) in
    rw (q, mul-add-mod_self_left) (sym (mod-eq_of_lt (omega arith)))

-- What is cut off above n digits.
pub bit-mod : (k n x : ℕ) → k < n → bit k (x % shifted n) ≡ bit k x
unfolding bit shifted
bit-mod k zero x h = absurd (omega arith)
bit-mod zero (suc n) x h = omega (arith, div-add-mod x (shifted n * 2))
bit-mod (suc k) (suc n) x h =
    rw (half_mod x (shifted n) (shifted_pos n)) (bit-mod k n (x / 2) (omega arith))
