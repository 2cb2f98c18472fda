-- ===== src/Arrays.antt =====
-- util/array.inl: a growable array over an allocator. The elements' constructors and destructors are
-- not modelled; the elements are a list.
pub mod Grows
use rox.Prelude.{
  length, get_elem?, set, take, drop, replicate, length-append, length-take, length-drop,
  length-replicate, length-set, get_elem?-set_self, get_elem?-set_ne, get_or, ==_iff, Bool-cases,
  All, ◌≢◌, zero, suc, ◌+◌, ◌-◌, ◌*◌, ◌/◌, ◌%◌, ◌^◌, ◌≤◌, ◌<◌, ◌≡◌, refl, arith, ◌⊎◌, inl, inr,
  Bool, true, false, if◌then◌else◌, Option, none, some, List, [], ◌∷◌, ◌==◌, ltb, leb, ◌&&◌, ◌||◌,
  not, ◌++◌, ◌↔◌, ℕ, ℕ_discrete, dec_lt, ap, sym,
}
use rox.Memory.Interface.{Allocator}

-- The loop of `reserve`, with fuel.
unfoldable pub grow : ℕ → ℕ → ℕ → ℕ
grow zero c n = c
grow (suc f) c n = if ltb c n then grow f ((c + 1) * 3 % 2 ^ 64 / 2) n else c

-- At every round the capacity grows by one at least.
abbrev pub capacity_for : ℕ → ℕ
capacity_for n = grow n 0 n

pub record Array (T : Type 0) : Type 0 where
  pub items : List T
  pub capacity : ℕ
  pub at : Option ℕ

-- The room is there or not, and the memory left.
abbrev pub Outcome : Type 0 → Type 0 → Type 0
Outcome T M = Bool × Array T × M

module _ {T : Type 0} {M : Type 0} where
  abbrev pub pushed : T → Outcome T M → Outcome T M
  pushed x (true, a, m) = (true, record a { items = a.items ++ (x ∷ []) }, m)
  pushed x (false, a, m) = (false, a, m)

  abbrev pub resized : T → ℕ → Outcome T M → Outcome T M
  resized d n (true, a, m) =
      (true, record a { items = a.items ++ replicate (n - length a.items) d }, m)
  resized d n (false, a, m) = (false, a, m)

  abbrev pub onward : (Array T → M → Outcome T M) → Outcome T M → Outcome T M
  onward k (true, a, m) = k a m
  onward k (false, a, m) = (false, a, m)

module _ {T : Type 0} where
  abbrev shorter : List T → List T
  shorter [] = []
  shorter (x ∷ xs) = take (length xs) (x ∷ xs)

  unfoldable pub pop_back : Array T → Bool × Array T
  pop_back a = (not (length a.items == 0), record a { items = shorter a.items })

-- The loop of `reserve` over the elements: each one is made anew behind those that have been moved.
unfoldable pub move_items : {T : Type 0} → List T → List T → List T
move_items done [] = done
move_items done (x ∷ xs) = move_items (done ++ (x ∷ [])) xs

module _ {M : Type 0} (al : Allocator M) {T : Type 0} (bytes : ℕ) where
  -- `sizeof(T)` is `bytes`.
  abbrev pub moved : Array T → ℕ → Option ℕ × M → Outcome T M
  moved a c (none, m) = (false, a, m)
  moved a c (some p, m) = (
    true,
    record { items = move_items [] a.items; capacity = c; at = some p },
    al.deallocate m a.at (a.capacity * bytes % 2 ^ 64),
  )

  unfoldable pub reserve : Array T → ℕ → M → Outcome T M
  reserve a n m =
      if ltb n a.capacity
      then (true, a, m)
      else moved a (capacity_for n) (al.allocate m (capacity_for n * bytes % 2 ^ 64))

  unfoldable pub push_back : Array T → T → M → Outcome T M
  push_back a x m = pushed x (reserve a (length a.items + 1) m)

  -- New elements are `T{}`, here `d`.
  unfoldable pub resize : T → Array T → ℕ → M → Outcome T M
  resize d a n m =
      if ltb n (length a.items)
      then (true, record a { items = take n a.items }, m)
      else if ltb (length a.items) n
      then resized d n (reserve a n m)
      else (true, a, m)

  -- Elements in a row, until there is no room.
  unfoldable pub push_all : Array T → List T → M → Outcome T M
  push_all a [] m = (true, a, m)
  push_all a (x ∷ xs) m = onward (λ b n. push_all b xs n) (push_back a x m)
