-- ===== src/Types/Aligns.antt =====
-- Alignments, and the offset that cg_type.cpp rounds up to one.
use rox.Types.Masks.{align_up_lem, IsAlignment, by_1, by_2, by_4, by_8}
use rox.Prelude.{ℕ, ◌+◌, ◌%◌, ◌^◌, ◌≤◌, ◌<◌, ◌≡◌, refl, arith, true, false, if◌then◌else◌, ltb}
use rox.Types.Make.{align_up, max_size}

abbrev pub Rounds : ℕ → ℕ → ℕ → Type 0
Rounds o a r = (r % a ≡ 0) × (o ≤ r) × (r < o + a)

pub align_up-Rounds : (o a : ℕ) → IsAlignment a → o + 8 < 2 ^ 64 → Rounds o a (align_up o a)
align_up-Rounds o _ by_1 h = rw (align_up_lem o 1 by_1 h) (omega arith, omega arith, omega arith)
align_up-Rounds o _ by_2 h = rw (align_up_lem o 2 by_2 h) (omega arith, omega arith, omega arith)
align_up-Rounds o _ by_4 h = rw (align_up_lem o 4 by_4 h) (omega arith, omega arith, omega arith)
align_up-Rounds o _ by_8 h = rw (align_up_lem o 8 by_8 h) (omega arith, omega arith, omega arith)

pub alignment_small : (a : ℕ) → IsAlignment a → (0 < a) × (a ≤ 8)
alignment_small _ by_1 = (omega arith, omega arith)
alignment_small _ by_2 = (omega arith, omega arith)
alignment_small _ by_4 = (omega arith, omega arith)
alignment_small _ by_8 = (omega arith, omega arith)

pub max-IsAlignment : (a b : ℕ) → IsAlignment a → IsAlignment b → IsAlignment (max_size a b)
max-IsAlignment a b p q = elim (ltb b a) as (λ x. IsAlignment (if x then a else b)) [
  | true ↦ p
  | false ↦ q
]

pub max_upper : (a b : ℕ) → (a ≤ max_size a b) × (b ≤ max_size a b)
max_upper a b = ground arith

-- Of two alignments the less divides the greater.
pub alignment_divides : (a b : ℕ) → IsAlignment a → IsAlignment b → b ≤ a → a % b ≡ 0
alignment_divides a _ p by_1 h = omega arith
alignment_divides _ _ by_1 by_2 h = absurd (omega arith)
alignment_divides _ _ by_2 by_2 h = refl
alignment_divides _ _ by_4 by_2 h = refl
alignment_divides _ _ by_8 by_2 h = refl
alignment_divides _ _ by_1 by_4 h = absurd (omega arith)
alignment_divides _ _ by_2 by_4 h = absurd (omega arith)
alignment_divides _ _ by_4 by_4 h = refl
alignment_divides _ _ by_8 by_4 h = refl
alignment_divides _ _ by_1 by_8 h = absurd (omega arith)
alignment_divides _ _ by_2 by_8 h = absurd (omega arith)
alignment_divides _ _ by_4 by_8 h = absurd (omega arith)
alignment_divides _ _ by_8 by_8 h = refl
