-- ===== src/Gen/Extends.antt =====
-- What runs that declare types never take back.
use mathlib.Core.Option
use rox.Prelude.{
  ==_iff, Bool-cases, ◌≡◌, refl, ◌⊎◌, inl, inr, true, some, List, [], ◌∷◌, ◌==◌, ◌++◌, ℕ,
}
use rox.Gen.{equal, CgType, Bytes, Declared, find_type, has_number}

pub data Has {A : Type 0} (a : A) : List A → Type 0 where
  here : (as_ : List A) → Has a (a ∷ as_)
  there : (b : A) (as_ : List A) → Has a as_ → Has a (b ∷ as_)

pub Has-append : {A : Type 0} {a : A} (xs ys : List A) → Has a xs → Has a (xs ++ ys)
Has-append _ ys (Has.here xs) = Has.here (xs ++ ys)
Has-append _ ys (Has.there b xs h) = Has.there b (xs ++ ys) (Has-append xs ys h)

pub Has-last : {A : Type 0} (a : A) (xs : List A) → Has a (xs ++ (a ∷ []))
Has-last a [] = Has.here []
Has-last a (x ∷ xs) = Has.there x (xs ++ (a ∷ [])) (Has-last a xs)

pub find_type-append :
    (xs ys : List (Bytes × CgType)) (x : Bytes) (u : CgType)
    → find_type xs x ≡ some u
    → find_type (xs ++ ys) x ≡ some u
unfolding find_type
find_type-append [] ys x u h = absurd (cc h)
find_type-append ((n, t) ∷ xs) ys x u h = elim (Bool-cases (equal n x)) [
  | inl e ↦ rw e (rw e at h)
  | inr e ↦ rw e (find_type-append xs ys x u (rw e at h))
]

-- A type that is found behind one more was there or is the new one.
pub find_type-last :
    (xs : List (Bytes × CgType)) (n x : Bytes) (t u : CgType)
    → find_type (xs ++ ((n, t) ∷ [])) x ≡ some u
    → (find_type xs x ≡ some u) ⊎ (t ≡ u)
unfolding find_type
find_type-last [] n x t u h = elim (Bool-cases (equal n x)) [
  | inl e ↦ inr (Option.some-injective _ _ (rw e at h))
  | inr e ↦ absurd (cc (rw e at h))
]
find_type-last ((m, v) ∷ xs) n x t u h = elim (Bool-cases (equal m x)) [
  | inl e ↦ inl (rw e (rw e at h))
  | inr e ↦ elim (find_type-last xs n x t u (rw e at h)) [ inl p ↦ inl (rw e p) | inr p ↦ inr p ]
]

-- What is found, listed and numbered in one state is so in another.
pub record Extends (s s' : Declared) : Type 0 where
  pub found_typedef :
      (x : Bytes) (u : CgType) → find_type s.typedefs x ≡ some u → find_type s'.typedefs x ≡ some u
  pub found_effect :
      (x : Bytes) (u : CgType) → find_type s.effects x ≡ some u → find_type s'.effects x ≡ some u
  pub has_typedef : (e : Bytes × CgType) → Has e s.typedefs → Has e s'.typedefs
  pub has_effect : (e : Bytes × CgType) → Has e s.effects → Has e s'.effects
  pub typedef_made :
      (i : ℕ) → has_number s.made_typedefs i ≡ true → has_number s'.made_typedefs i ≡ true
  pub effect_made :
      (i : ℕ) → has_number s.made_effects i ≡ true → has_number s'.made_effects i ≡ true

pub Extends-refl : (s : Declared) → Extends s s
Extends-refl s = record {
  found_typedef = λ x u h. h;
  found_effect = λ x u h. h;
  has_typedef = λ e h. h;
  has_effect = λ e h. h;
  typedef_made = λ i h. h;
  effect_made = λ i h. h;
}

pub Extends-trans : {s t u : Declared} → Extends s t → Extends t u → Extends s u
Extends-trans p q = record {
  found_typedef = λ x u h. q.found_typedef x u (p.found_typedef x u h);
  found_effect = λ x u h. q.found_effect x u (p.found_effect x u h);
  has_typedef = λ e h. q.has_typedef e (p.has_typedef e h);
  has_effect = λ e h. q.has_effect e (p.has_effect e h);
  typedef_made = λ i h. q.typedef_made i (p.typedef_made i h);
  effect_made = λ i h. q.effect_made i (p.effect_made i h);
}

pub has_number_more :
    (i j : ℕ) (js : List ℕ) → has_number js i ≡ true → has_number (j ∷ js) i ≡ true
unfolding has_number
has_number_more i j js h = elim (Bool-cases (j == i)) [ inl e ↦ rw e refl | inr e ↦ rw e h ]

pub has_number_new : (i : ℕ) (js : List ℕ) → has_number (i ∷ js) i ≡ true
unfolding has_number
has_number_new i js = rw ((==_iff i i).1 refl) refl
