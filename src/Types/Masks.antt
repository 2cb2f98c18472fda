-- ===== src/Types/Masks.antt =====
-- The mask of `align_mask` rounds an offset up to a multiple of the alignment.
use Prim.Native.Nat.{bit_and}
use rox.Prelude.{sym, ◌∙◌, ℕ, zero, suc, ◌+◌, ◌-◌, ◌*◌, ◌/◌, ◌%◌, ◌^◌, ◌≤◌, ◌<◌, ◌≡◌, refl, arith}
use rox.Types.Make.{align_up, align_mask, word}
use rox.Bits.{bit_and_step, ones}

-- A mask of n ones keeps what is below 2 ^ n.
bit_and-ones : (n a : ℕ) → a ≤ ones n → bit_and a (ones n) ≡ a
unfolding ones
bit_and-ones zero zero h = refl
bit_and-ones zero (suc a) h = absurd (omega arith)
bit_and-ones (suc n) a h =
    let low : (ones n * 2 + 1) / 2 ≡ ones n = omega arith in
    let rest : bit_and (a / 2) ((ones n * 2 + 1) / 2) ≡ a / 2 =
      rw low (bit_and-ones n (a / 2) (omega arith)) in
    omega (arith, bit_and_step a (ones n * 2 + 1), rest)

and_up : (m a : ℕ) (n : ℕ) → bit_and (a / 2) (m / 2) ≡ n → m % 2 ≡ 0 → bit_and a m ≡ n * 2
and_up m a n h e = omega (arith, bit_and_step a m, h)

and_1 : (a : ℕ) → a < 2 ^ 64 → bit_and a (2 ^ 64 - 1) ≡ a
unfolding ones
and_1 a h = bit_and-ones 64 a (omega arith)

and_2 : (a : ℕ) → a < 2 ^ 64 → bit_and a (2 ^ 64 - 2) ≡ a / 2 * 2
unfolding ones
and_2 a h = and_up (2 ^ 64 - 2) a (a / 2) (bit_and-ones 63 (a / 2) (omega arith)) refl

and_4 : (a : ℕ) → a < 2 ^ 64 → bit_and a (2 ^ 64 - 4) ≡ a / 2 / 2 * 2 * 2
unfolding ones
and_4 a h =
    and_up (2 ^ 64 - 4) a (a / 2 / 2 * 2)
      (and_up (2 ^ 63 - 2) (a / 2) (a / 2 / 2) (bit_and-ones 62 (a / 2 / 2) (omega arith)) refl)
      refl

and_8 : (a : ℕ) → a < 2 ^ 64 → bit_and a (2 ^ 64 - 8) ≡ a / 2 / 2 / 2 * 2 * 2 * 2
unfolding ones
and_8 a h =
    and_up (2 ^ 64 - 8) a (a / 2 / 2 / 2 * 2 * 2)
      (and_up (2 ^ 63 - 4) (a / 2) (a / 2 / 2 / 2 * 2)
        (and_up (2 ^ 62 - 2) (a / 2 / 2) (a / 2 / 2 / 2)
          (bit_and-ones 61 (a / 2 / 2 / 2) (omega arith)) refl)
        refl)
      refl

-- The alignments of the types that LLVM's data layout gives on 64-bit targets.
pub data IsAlignment : ℕ → Type 0 where
  by_1 : IsAlignment 1
  by_2 : IsAlignment 2
  by_4 : IsAlignment 4
  by_8 : IsAlignment 8

masked :
    (o a b m : ℕ)
    → word (o + align_mask a) ≡ b
    → 2 ^ 64 - 1 - align_mask a ≡ m
    → align_up o a ≡ bit_and b m
unfolding align_up
masked o a b m p q = rw (p, q) refl

pub align_up_lem : (o a : ℕ) → IsAlignment a → o + 8 < 2 ^ 64 → align_up o a ≡ (o + (a - 1)) / a * a
align_up_lem o _ by_1 h =
    rw (masked o 1 o (2 ^ 64 - 1) (omega arith) refl) (omega (arith, and_1 o (omega arith)))
align_up_lem o _ by_2 h =
    rw (masked o 2 (o + 1) (2 ^ 64 - 2) (omega arith) refl)
      (omega (arith, and_2 (o + 1) (omega arith)))
align_up_lem o _ by_4 h =
    rw (masked o 4 (o + 3) (2 ^ 64 - 4) (omega arith) refl)
      (omega (arith, and_4 (o + 3) (omega arith)))
align_up_lem o _ by_8 h =
    rw (masked o 8 (o + 7) (2 ^ 64 - 8) (omega arith) refl)
      (omega (arith, and_8 (o + 7) (omega arith)))

and_8_of : (m a : ℕ) → m % 8 ≡ 0 → bit_and a m ≡ bit_and (a / 8) (m / 8) * 8
and_8_of m a h =
    let e : a / 2 / 2 / 2 ≡ a / 8 = omega arith in
    let f : m / 2 / 2 / 2 ≡ m / 8 = omega arith in
    let third : bit_and (a / 2 / 2) (m / 2 / 2) ≡ bit_and (a / 8) (m / 8) * 2 =
      rw (sym e, sym f) (and_up (m / 2 / 2) (a / 2 / 2) _ refl (omega arith)) in
    and_up m a _ (and_up (m / 2) (a / 2) _ third (omega arith)) (omega arith) ∙ omega arith

pub and_32 : (a : ℕ) → a < 2 ^ 64 → bit_and a (2 ^ 64 - 32) ≡ a / 32 * 32
unfolding ones
and_32 a h =
    let top : bit_and (a / 8 / 2 / 2) (2 ^ 59 - 1) ≡ a / 8 / 2 / 2 =
      bit_and-ones 59 (a / 8 / 2 / 2) (omega arith) in
    let low : bit_and (a / 8) (2 ^ 61 - 4) ≡ a / 8 / 2 / 2 * 2 * 2 =
      and_up (2 ^ 61 - 4) (a / 8) _ (and_up (2 ^ 60 - 2) (a / 8 / 2) _ top refl) refl in
    and_8_of (2 ^ 64 - 32) a refl ∙ omega (arith, low)
