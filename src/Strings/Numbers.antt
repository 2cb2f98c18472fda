-- ===== src/Strings/Numbers.antt =====
-- How the builder of util/string.cpp prints a number.
use rox.Arrays.Grows.{IsArray}
use mathlib.Core.Path.{subst}
use rox.Prelude.{
  ◌∙◌, ◌∙◌, length, set, replicate, length-append, length-replicate, ◌≢◌, zero, suc, ◌+◌, ◌-◌, ◌*◌,
  ◌/◌, ◌%◌, ◌^◌, ◌≤◌, ◌<◌, ◌≡◌, refl, arith, true, if◌then◌else◌, List, [], ◌∷◌, ◌==◌, ◌++◌, ℕ,
  ℕ_discrete, ap, sym,
}
use mathlib.Core.List.{append-nil, append_assoc}
use rox.Memory.Slots.{==_no}
use rox.Strings.{Builder, append_uint, Allocator, fill, measure}
use rox.Strings.Writes.{room-Adds, append_char-Adds, Adds, set_at}

-- The last n decimal digits.
unfoldable pub digits : ℕ → ℕ → List ℕ
digits zero v = []
digits (suc n) v = digits n (v / 10) ++ ((48 + v % 10) ∷ [])

-- A number in decimal.
unfoldable pub decimal : ℕ → List ℕ
decimal v = if v == 0 then 48 ∷ [] else digits (measure v v) v

-- The number that digits stand for.
unfoldable pub read : ℕ → List ℕ → ℕ
read acc [] = acc
read acc (c ∷ cs) = read (acc * 10 + (c - 48)) cs

-- Exactly n digits, the first of them not 0.
data HasDigits : ℕ → ℕ → Type 0 where
  no_digits : HasDigits 0 0
  more_digits : (n v : ℕ) → v ≢ 0 → HasDigits n (v / 10) → HasDigits (suc n) v

measure-HasDigits : (f v : ℕ) → v ≤ f → HasDigits (measure f v) v
unfolding measure
measure-HasDigits zero zero h = no_digits
measure-HasDigits zero (suc v) h = absurd (omega arith)
measure-HasDigits (suc f) v h = elim (ℕ_discrete v 0) [
  | yes e ↦
      subst (λ x. HasDigits (if x == 0 then 0 else suc (measure f (x / 10))) x) (sym e) no_digits
  | no n ↦ rw (==_no v 0 n) (more_digits _ v n (measure-HasDigits f (v / 10) (omega arith)))
]

replicate_last : (n d : ℕ) (ys : List ℕ) → replicate (suc n) d ++ ys ≡ replicate n d ++ (d ∷ ys)
replicate_last zero d ys = refl
replicate_last (suc n) d ys = ap (λ l. d ∷ l) (replicate_last n d ys)

length-digits : (n v : ℕ) → length (digits n v) ≡ n
unfolding digits
length-digits zero v = refl
length-digits (suc n) v =
    omega
      (arith, length-append {0} (digits n (v / 10)) ((48 + v % 10) ∷ []), length-digits n (v / 10))

fill_over :
    (n v : ℕ) (xs ys : List ℕ)
    → HasDigits n v
    → fill n (xs ++ (replicate n 0 ++ ys)) (length xs) v ≡ xs ++ (digits n v ++ ys)
unfolding fill digits
fill_over zero v xs ys h = refl
fill_over (suc n) v xs ys (more_digits _ _ m h) =
    let c = 48 + v % 10 in
    let l : length xs + n ≡ length (xs ++ replicate n 0) =
      omega (arith, length-append {0} xs (replicate n 0), length-replicate {0} {A = ℕ} n 0) in
    let put : set (xs ++ (replicate (suc n) 0 ++ ys)) (length xs + n) c
        ≡ xs ++ (replicate n 0 ++ (c ∷ ys)) =
      rw (replicate_last n 0 ys, l, sym (append_assoc xs (replicate n 0) (0 ∷ ys)))
        (set_at (xs ++ replicate n 0) ys 0 c ∙ append_assoc xs (replicate n 0) (c ∷ ys)) in
    rw (==_no v 0 m, put)
      (fill_over n (v / 10) xs (c ∷ ys) h
        ∙ ap (λ y. xs ++ y) (sym (append_assoc (digits n (v / 10)) (c ∷ []) ys)))

read-append : (xs : List ℕ) (a c : ℕ) → read a (xs ++ (c ∷ [])) ≡ read a xs * 10 + (c - 48)
unfolding read
read-append [] a c = refl
read-append (x ∷ xs) a c = read-append xs (a * 10 + (x - 48)) c

read-digits : (n v : ℕ) → HasDigits n v → read 0 (digits n v) ≡ v
unfolding read digits
read-digits zero v no_digits = refl
read-digits (suc n) v (more_digits _ _ m h) =
    omega (arith, read-append (digits n (v / 10)) 0 (48 + v % 10), read-digits n (v / 10) h)

-- What is printed reads back.
pub read-decimal : (v : ℕ) → read 0 (decimal v) ≡ v
unfolding decimal read
read-decimal zero = refl
read-decimal (suc v) =
    rw (==_no (suc v) 0 (omega arith))
      (read-digits _ (suc v) (measure-HasDigits (suc v) (suc v) (omega arith)))

fill_all :
    (n v : ℕ) (xs : List ℕ)
    → HasDigits n v
    → fill n (xs ++ replicate n 0) (length xs) v ≡ xs ++ digits n v
fill_all n v xs h =
    ap (λ y. fill n (xs ++ y) (length xs) v) (sym (append-nil (replicate n 0)))
    ∙ fill_over n v xs [] h
    ∙ ap (λ y. xs ++ y) (append-nil (digits n v))

decimal_zero : decimal 0 ≡ 48 ∷ []
unfolding decimal
decimal_zero = refl

decimal_ne : (v : ℕ) → v ≢ 0 → decimal v ≡ digits (measure v v) v
unfolding decimal
decimal_ne v h = rw (==_no v 0 h)

module _ {M : Type 0} (al : Allocator M) where
  append_uint-Adds :
      (b : Builder) (v : ℕ) (m : M)
      → b.valid ≡ true
      → IsArray b.buffer
      → length b.buffer.items + length (decimal v) < 2 ^ 62
      → Adds al b (decimal v) m (append_uint al b v m)
  unfolding append_uint
  append_uint-Adds b zero m s w h =
      rw decimal_zero (append_char-Adds al b 48 m w (omega (arith, ap length decimal_zero, h)))
  append_uint-Adds b (suc v) m s w h =
      let n : suc v ≢ 0 = omega arith in
      let k = measure (suc v) (suc v) in
      let d : length (digits k (suc v)) ≡ k = length-digits k (suc v) in
      rw (==_no (suc v) 0 n, decimal_ne (suc v) n)
        (room-Adds al b k (digits k (suc v)) _ m s w d
          (omega (arith, d, ap length (decimal_ne (suc v) n), h))
          (fill_all k (suc v) b.buffer.items (measure-HasDigits (suc v) (suc v) (omega arith))))

  -- To append a number to a valid builder, with less than 2 ^ 62 characters in all, puts digits
  -- behind what it had that read back as the number; or the allocator has refused, and the
  -- builder is no longer valid and has what it had.
  pub append_uint-decimal :
      (b : Builder) (v : ℕ) (m : M)
      → b.valid ≡ true
      → IsArray b.buffer
      → length b.buffer.items + length (decimal v) < 2 ^ 62
      → Adds al b (decimal v) m (append_uint al b v m) × (read 0 (decimal v) ≡ v)
  append_uint-decimal b v m s w h = (append_uint-Adds b v m s w h, read-decimal v)
