-- ===== src/Gen/Leaves.antt =====
-- Every run leaves the types that are declared solved: each denotes what its definition says.
use rox.Gen.{tried}
use rox.Types.Same.Made.{Made}
use rox.Prelude.{get_elem?, ◌≡◌, ◌⊎◌, inl, inr, true, none, some, ℕ}
use rox.Gen.{
  error, Bytes, CgType, Problem, find_type, has_number, AstEffect, AstTypedef, Range, Declared,
  Outcome, Surroundings, Gen, made, failed, broken, spent, after,
}
use rox.Gen.Extends.{Has, Extends-refl, Extends-trans, Extends}
use rox.Gen.Denotes.{Denotes, Naming}
use rox.Gen.TypeGen.{builtins}

-- What a name stands for in a state.
abbrev pub Named : Declared → Naming
Named s x u =
    (find_type builtins x ≡ some u)
    ⊎ ((find_type s.typedefs x ≡ some u) ⊎ (find_type s.effects x ≡ some u))

pub Named-Extends :
    {s s' : Declared} → Extends s s' → (x : Bytes) (u : CgType) → Named s x u → Named s' x u
Named-Extends e x u (inl h) = inl h
Named-Extends e x u (inr (inl h)) = inr (inl (e.found_typedef x u h))
Named-Extends e x u (inr (inr h)) = inr (inr (e.found_effect x u h))

-- A type definition is listed with a type that it denotes by what the names stand for now.
abbrev pub TypedefSolved : Surroundings → Declared → AstTypedef → Type 0
TypedefSolved env s d =
    (u : CgType) × Has (d.name, u) s.typedefs × Denotes (Named s) env d.type (some d.name) u

abbrev pub EffectSolved : Surroundings → Declared → AstEffect → Type 0
EffectSolved env s d =
    (u : CgType) × Has (d.name, u) s.effects × Denotes (Named s) env d.type none u

pub record IsSolved (env : Surroundings) (s : Declared) : Type 0 where
  pub typedefs_solved :
      (i : ℕ) (d : AstTypedef)
      → get_elem? env.unit_typedefs i ≡ some d
      → has_number s.made_typedefs i ≡ true
      → TypedefSolved env s d
  pub effects_solved :
      (i : ℕ) (d : AstEffect)
      → get_elem? env.unit_effects i ≡ some d
      → has_number s.made_effects i ≡ true
      → EffectSolved env s d
  pub typedefs_made : (x : Bytes) (u : CgType) → find_type s.typedefs x ≡ some u → Made u
  pub effects_made : (x : Bytes) (u : CgType) → find_type s.effects x ≡ some u → Made u

-- A run from a state, by what holds of its result in the state that it leaves.
pub data Leaves (env : Surroundings) {A : Type 0} (P : A → Declared → Type 0) (s : Declared)
    : Outcome A → Type 0 where
  leaves_made :
      (a : A) (s' : Declared) → Extends s s' → IsSolved env s' → P a s' → Leaves env P s (made a s')
  leaves_failed : (s' : Declared) → Extends s s' → IsSolved env s' → Leaves env P s (failed s')
  leaves_broken : Leaves env P s broken
  leaves_spent : Leaves env P s spent

module _ {env : Surroundings} {A : Type 0} {P : A → Declared → Type 0} where
  pub Leaves-from :
      {s t : Declared} {o : Outcome A} → Extends s t → Leaves env P t o → Leaves env P s o
  Leaves-from e (leaves_made a s' f k p) = leaves_made a s' (Extends-trans e f) k p
  Leaves-from e (leaves_failed s' f k) = leaves_failed s' (Extends-trans e f) k
  Leaves-from e leaves_broken = leaves_broken
  Leaves-from e leaves_spent = leaves_spent

module _ {env : Surroundings} {A : Type 0} {P : A → Declared → Type 0} where
  -- One run and then another.
  pub Leaves-after :
      {B : Type 0} {Q : B → Declared → Type 0} {s : Declared} {o : Outcome A} (f : A → Gen B)
      → Leaves env P s o
      → ((a : A) (t : Declared) → Extends s t → IsSolved env t → P a t → Leaves env Q t (f a t))
      → Leaves env Q s (after o f)
  Leaves-after f (leaves_made a t e k p) g = Leaves-from e (g a t e k p)
  Leaves-after f (leaves_failed t e k) g = leaves_failed t e k
  Leaves-after f leaves_broken g = leaves_broken
  Leaves-after f leaves_spent g = leaves_spent

  pub Leaves-weaken :
      {Q : A → Declared → Type 0} {s : Declared} {o : Outcome A}
      → ((a : A) (t : Declared) → P a t → Q a t)
      → Leaves env P s o
      → Leaves env Q s o
  Leaves-weaken w (leaves_made a t e k p) = leaves_made a t e k (w a t p)
  Leaves-weaken w (leaves_failed t e k) = leaves_failed t e k
  Leaves-weaken w leaves_broken = leaves_broken
  Leaves-weaken w leaves_spent = leaves_spent

  pub Leaves-refine :
      {Q : A → Declared → Type 0} {s : Declared} {o : Outcome A}
      → ((a : A) (t : Declared) → Extends s t → P a t → Q a t)
      → Leaves env P s o
      → Leaves env Q s o
  Leaves-refine w (leaves_made a t e k p) = leaves_made a t e k (w a t e p)
  Leaves-refine w (leaves_failed t e k) = leaves_failed t e k
  Leaves-refine w leaves_broken = leaves_broken
  Leaves-refine w leaves_spent = leaves_spent

  pub Leaves-result : {s t : Declared} {a : A} → Leaves env P s (made a t) → IsSolved env t × P a t
  Leaves-result (leaves_made _ _ e k p) = (k, p)

  -- A run that ends where it stands.
  pub Leaves-pure : (a : A) (s : Declared) → IsSolved env s → P a s → Leaves env P s (made a s)
  Leaves-pure a s k p = leaves_made a s (Extends-refl s) k p

  pub Leaves-null : (s : Declared) → IsSolved env s → Leaves env P s (failed s)
  Leaves-null s k = leaves_failed s (Extends-refl s) k

-- A report changes nothing that is declared.
pub Leaves-error :
    {env : Surroundings} {A : Type 0} {P : A → Declared → Type 0} (r : Range) (p : Problem)
    (s : Declared)
    → IsSolved env s
    → Leaves env P s (error r p s)
Leaves-error r p s k =
    leaves_failed _
      (record {
        found_typedef = λ x u h. h;
        found_effect = λ x u h. h;
        has_typedef = λ e h. h;
        has_effect = λ e h. h;
        typedef_made = λ i h. h;
        effect_made = λ i h. h;
      })
      (record {
        typedefs_solved = k.typedefs_solved;
        effects_solved = k.effects_solved;
        typedefs_made = k.typedefs_made;
        effects_made = k.effects_made;
      })

-- One run, and one of two others behind it.
pub Leaves-tried :
    {env : Surroundings} {A B : Type 0} {P : A → Declared → Type 0} {Q : B → Declared → Type 0}
    {s : Declared} {o : Outcome A} (f g : Gen B)
    → Leaves env P s o
    → ((t : Declared) → IsSolved env t → Leaves env Q t (f t))
    → ((t : Declared) → IsSolved env t → Leaves env Q t (g t))
    → Leaves env Q s (tried o f g)
Leaves-tried f g (leaves_made a t e k p) then_ok else_ok = Leaves-from e (then_ok t k)
Leaves-tried f g (leaves_failed t e k) then_ok else_ok = Leaves-from e (else_ok t k)
Leaves-tried f g leaves_broken then_ok else_ok = leaves_broken
Leaves-tried f g leaves_spent then_ok else_ok = leaves_spent
