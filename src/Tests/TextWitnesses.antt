-- ===== src/Tests/TextWitnesses.antt =====
-- The theorems on text at concrete inputs.
use rox.Strings.Numbers.{append_uint-decimal, read, decimal, digits}
use rox.Strings.{append_uint, measure}
use rox.Prelude.{codes, ◌+◌, ◌≡◌, refl, arith, true, Option, some, [], ◌∷◌, ℕ}
use rox.Memory.Interface.{Allocator}
use rox.Arrays.Grows.{is_array}
use rox.Format.{writing, measuring, format_va, size_value, c_string}
use rox.Strings.Writes.{append-Adds, Adds}
use rox.Format.Passes.{format_va-Matches, Matches}
use rox.Strings.{append, Builder}

abbrev heap : Allocator ℕ
heap = record {
  allocate = λ (m : ℕ) (n : ℕ). (some m, m + n);
  deallocate = λ (m : ℕ) (a : Option ℕ) (n : ℕ). m;
}

abbrev builder : Builder
builder = record { buffer = record { items = codes "n="; capacity = 3; at = some 0 }; valid = true }

append-Adds_example : Adds heap builder (codes "ab") 16 (append heap builder (codes "ab") 16)
append-Adds_example =
    append-Adds heap builder (codes "ab") 16 (is_array (omega arith)) (omega arith)

append_uint-decimal_example :
    Adds heap builder (decimal 407) 16 (append_uint heap builder 407 16)
    × (read 0 (decimal 407) ≡ 407)
unfolding decimal digits measure
append_uint-decimal_example =
    append_uint-decimal heap builder 407 16 refl (is_array (omega arith)) (omega arith)

format_va-Matches_example :
    Matches
      (format_va 9 (codes "%s: %zu!") (c_string (codes "a") ∷ size_value 12 ∷ []) measuring)
      (format_va 9 (codes "%s: %zu!") (c_string (codes "a") ∷ size_value 12 ∷ []) writing)
format_va-Matches_example =
    format_va-Matches 9 (codes "%s: %zu!") (c_string (codes "a") ∷ size_value 12 ∷ []) (omega arith)
