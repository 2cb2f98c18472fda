-- ===== src/Arrays/Grows.antt =====
-- How the arrays of util/array.inl grow.
use rox.Memory.Interface.{Refused, refused}
use rox.Arrays.{move_items}
use mathlib.Core.List.{append-nil, append_assoc}
use rox.Prelude.{
  ◌∙◌, lt→ltb, length, take, replicate, length-append, length-take, length-replicate, zero, suc,
  ◌+◌, ◌-◌, ◌*◌, ◌^◌, ◌≤◌, ◌<◌, ◌≡◌, refl, arith, true, false, Option, none, some, List, [], ◌∷◌,
  ltb, ◌++◌, ℕ, dec_lt, ap, sym,
}
use rox.Arrays.{
  resize, resized, onward, push_back, pushed, Outcome, moved, push_all, reserve, Allocator, Array,
  capacity_for, grow,
}

ltb_no : (a b : ℕ) → ¬ (a < b) → ltb a b ≡ false
ltb_no a b h = ground (arith, h)

grow_lem : (f c n : ℕ) → n < 2 ^ 62 → c < 2 ^ 63 → n ≤ c + f → n ≤ grow f c n
unfolding grow
grow_lem zero c n h k l = omega arith
grow_lem (suc f) c n h k l = elim (dec_lt c n) [
  | yes p ↦ rw (lt→ltb c n p) (grow_lem f _ n h (omega arith) (omega arith))
  | no p ↦ ground (arith, p)
]

grow_bound : (f c n : ℕ) → n < 2 ^ 62 → 2 * c ≤ 3 * n + 3 → 2 * grow f c n ≤ 3 * n + 3
unfolding grow
grow_bound zero c n h k = k
grow_bound (suc f) c n h k = elim (dec_lt c n) [
  | yes p ↦ rw (lt→ltb c n p) (grow_bound f _ n h (omega arith))
  | no p ↦ ground (arith, p, k)
]

-- With one unit of fuel for each element, the loop of `reserve` ends for a length below 2 ^ 62,
-- with a capacity that is no less than the length and at most half as much again, and one and a
-- half more.
pub capacity_for_bounds :
    (n : ℕ) → n < 2 ^ 62 → (n ≤ capacity_for n) × (2 * capacity_for n ≤ 3 * n + 3)
capacity_for_bounds n h =
    (grow_lem n 0 n h (omega arith) (omega arith), grow_bound n 0 n h (omega arith))

-- The elements fit.
pub data IsArray {T : Type 0} (a : Array T) : Type 0 where
  is_array : length a.items ≤ a.capacity → IsArray a

-- What making room gives: the same elements with room for so many, or nothing changes as the
-- allocator has refused.
data Reserves {T : Type 0} {M : Type 0} (al : Allocator M) (a : Array T) (n : ℕ)
    : Outcome T M → Type 0 where
  reserves :
      (b : Array T) (m : M) → b.items ≡ a.items → n ≤ b.capacity → Reserves al a n (true, b, m)
  reserves_not : (m : M) → Refused al m → Reserves al a n (false, a, m)

-- The elements in a row behind those of the array; or the first ones of them, as many as were pushed
-- until the allocator refused.
pub data Appends {T : Type 0} {M : Type 0} (al : Allocator M) (a : Array T) (xs : List T)
    : Outcome T M → Type 0 where
  appends :
      (b : Array T) (m : M) → b.items ≡ a.items ++ xs → IsArray b → Appends al a xs (true, b, m)
  appends_some :
      (b : Array T) (m : M) (k : ℕ)
      → k < length xs
      → b.items ≡ a.items ++ take k xs
      → IsArray b
      → Refused al m
      → Appends al a xs (false, b, m)

-- The first elements, and default ones behind them up to the length asked for; or nothing changes,
-- which is so only if the array was to become longer and the allocator has refused.
pub data Resizes {T : Type 0} {M : Type 0} (al : Allocator M) (d : T) (a : Array T) (n : ℕ)
    : Outcome T M → Type 0 where
  resizes :
      (b : Array T) (m : M)
      → b.items ≡ take n a.items ++ replicate (n - length a.items) d
      → IsArray b
      → Resizes al d a n (true, b, m)
  resizes_not : (m : M) → length a.items < n → Refused al m → Resizes al d a n (false, a, m)

pub take_all {ℓ} : {A : Type ℓ} (xs : List A) (n : ℕ) → length xs ≤ n → take n xs ≡ xs
take_all [] zero h = refl
take_all [] (suc n) h = refl
take_all (x ∷ xs) zero h = absurd (omega arith)
take_all (x ∷ xs) (suc n) h = rw (take_all xs n (omega arith))

move_items-append : {T : Type 0} (xs ys : List T) → move_items xs ys ≡ xs ++ ys
unfolding move_items
move_items-append xs [] = sym (append-nil xs)
move_items-append xs (y ∷ ys) = move_items-append (xs ++ (y ∷ [])) ys ∙ append_assoc xs (y ∷ []) ys

module _ {M : Type 0} (al : Allocator M) {T : Type 0} (bytes : ℕ) where
  moved-Reserves :
      (a : Array T) (n k : ℕ) (m : M) (r : Option ℕ × M)
      → n < 2 ^ 62
      → al.allocate m k ≡ r
      → Reserves al a n (moved al bytes a (capacity_for n) r)
  moved-Reserves a n k m (none, m') h e = reserves_not m' (refused m k e)
  moved-Reserves a n k m (some p, m') h e =
      reserves _ _ (move_items-append [] a.items) (capacity_for_bounds n h).0

  reserve-Reserves :
      (a : Array T) (n : ℕ) (m : M) → n < 2 ^ 62 → Reserves al a n (reserve al bytes a n m)
  unfolding reserve
  reserve-Reserves a n m h = elim (dec_lt n a.capacity) [
    | yes p ↦ rw (lt→ltb n a.capacity p) (reserves a m refl (omega arith))
    | no p ↦ rw (ltb_no n a.capacity p) (moved-Reserves a n _ m _ h refl)
  ]

  pushed-Appends :
      (a : Array T) (x : T) (r : Outcome T M)
      → IsArray a
      → Reserves al a (length a.items + 1) r
      → Appends al a (x ∷ []) (pushed x r)
  pushed-Appends a x _ w (reserves b m e h) =
      appends _ m (rw e)
        (is_array (omega (arith, length-append {0} b.items (x ∷ []), ap length e, h)))
  pushed-Appends a x _ w (reserves_not m f) =
      appends_some a m 0 (omega arith) (sym (append-nil a.items)) w f

  one_more :
      (a b : Array T) (x : T) (xs : List T) (r : Outcome T M)
      → b.items ≡ a.items ++ (x ∷ [])
      → Appends al b xs r
      → Appends al a (x ∷ xs) r
  one_more a b x xs _ e (appends c m d w) =
      appends c m (d ∙ (rw e (append_assoc a.items (x ∷ []) xs))) w
  one_more a b x xs _ e (appends_some c m k l d w f) =
      appends_some c m (suc k) (omega arith)
        (d ∙ (rw e (append_assoc a.items (x ∷ []) (take k xs)))) w f

  onward-Appends :
      (a : Array T) (x : T) (xs : List T) (r : Outcome T M) (k : Array T → M → Outcome T M)
      → Appends al a (x ∷ []) r
      → ((b : Array T) (m : M)
          → IsArray b
          → b.items ≡ a.items ++ (x ∷ [])
          → Appends al b xs (k b m))
      → Appends al a (x ∷ xs) (onward k r)
  onward-Appends a x xs _ k (appends b m e w) f = one_more a b x xs (k b m) e (f b m w e)
  onward-Appends a x xs _ k (appends_some b m zero l e w g) f =
      appends_some b m 0 (omega arith) e w g
  onward-Appends a x xs _ k (appends_some b m (suc j) l e w g) f = absurd (omega arith)

  pub push_back-Appends :
      (a : Array T) (x : T) (m : M)
      → IsArray a
      → length a.items + 1 < 2 ^ 62
      → Appends al a (x ∷ []) (push_back al bytes a x m)
  unfolding push_back
  push_back-Appends a x m w h = pushed-Appends a x _ w (reserve-Reserves a (length a.items + 1) m h)

  -- Elements that are pushed in a row onto a well-formed array, over any allocator and with
  -- fewer than 2 ^ 62 elements in all, are those of the list appended to its elements; or the
  -- first ones of them are, fewer than all, and the last request to the allocator was refused;
  -- and the array stays well formed.
  pub push_all-Appends :
      (a : Array T) (xs : List T) (m : M)
      → IsArray a
      → length a.items + length xs < 2 ^ 62
      → Appends al a xs (push_all al bytes a xs m)
  unfolding push_all
  push_all-Appends a [] m w h = appends a m (sym (append-nil a.items)) w
  push_all-Appends a (x ∷ xs) m w h =
      onward-Appends a x xs _ _ (push_back-Appends a x m w (omega arith)) (λ b n v e.
        push_all-Appends b xs n v (omega (arith, ap length e, length-append {0} a.items (x ∷ []))))

  resized-Resizes :
      (d : T) (a : Array T) (n : ℕ) (r : Outcome T M)
      → length a.items < n
      → Reserves al a n r
      → Resizes al d a n (resized d n r)
  resized-Resizes d a n _ h (reserves b m e l) =
      resizes _ m (rw (e, take_all a.items n (omega arith))) (
        is_array (
          omega (
            arith,
            length-append {0} b.items (replicate (n - length b.items) d),
            ap length e,
            length-replicate {0} (n - length b.items) d,
            l,
          )))
  resized-Resizes d a n _ h (reserves_not m f) = resizes_not m h f

  no_more :
      (d : T) (a : Array T) (n : ℕ) (xs : List T)
      → n ≤ length a.items
      → take n a.items ≡ xs
      → xs ≡ take n a.items ++ replicate (n - length a.items) d
  no_more d a n xs h e =
      let z : n - length a.items ≡ 0 = omega arith in rw (z, e) (sym (append-nil xs))

  -- Resizes.
  pub resize-Resizes :
      (d : T) (a : Array T) (n : ℕ) (m : M)
      → IsArray a
      → n < 2 ^ 62
      → Resizes al d a n (resize al bytes d a n m)
  unfolding resize
  resize-Resizes d a n m (is_array w) h = elim (dec_lt n (length a.items)) [
    | yes p ↦ rw (lt→ltb n (length a.items) p) (
        resizes _ m (no_more d a n _ (omega arith) refl)
          (is_array (omega (arith, length-take {0} n a.items, w))))
    | no p ↦ rw (ltb_no n (length a.items) p) (elim (dec_lt (length a.items) n) [
      | yes q ↦
          rw (lt→ltb (length a.items) n q) (resized-Resizes d a n _ q (reserve-Reserves a n m h))
      | no q ↦ rw (ltb_no (length a.items) n q) (
          resizes a m (no_more d a n _ (omega arith) (take_all a.items n (omega arith)))
            (is_array w))
    ])
  ]
