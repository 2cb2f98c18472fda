-- ===== src/Gen/Ranked.antt =====
-- The type definitions of a unit that can be ranked are all generated, or refused with a report.
use rox.Prelude.{
  Bool-cases, All, suc, ◌+◌, ◌≡◌, refl, inl, inr, true, Option, none, some, List, [], ◌∷◌, ℕ,
}
use rox.Ast.{AstType}
use rox.Lexer.Char.{Bytes}
use rox.Lexer.Token.{Range}
use rox.Types.{CgType}
use rox.Units.{AstTypedef, AstEffect}
use rox.Gen.{equal, Declared, Surroundings, Gen, find_type, has_number}
use rox.Gen.TypeGen.{builtins}
use rox.Gen.Resolve.{resolve, known_or, search_typedefs, search_effects, gen_typedef, gen_effect}
use rox.Gen.Extends.{Has}
use rox.Gen.Leaves.{Named, IsSolved}
use rox.Gen.Solves.{From, GenOk, first-From, rest-From, typedef-Leaves, effect-Leaves}
use rox.Gen.Ends.{Ends, ends_made, ends_failed, Ends-after, Ends-tried}
use rox.Gen.Below.{below}
use mathlib.Core.Path.{subst}
use rox.Prelude.{equal_iff}

-- Every name in the type of a definition is builtin or has a lower rank than the definition, whose
-- rank is below the fuel.
pub record IsRanked (env : Surroundings) (rank : Bytes → ℕ) : Type 0 where
  pub typedefs_below : All (λ d. below rank (rank d.name) d.type ≡ true) env.unit_typedefs
  pub effects_below : All (λ d. below rank (rank d.name) d.type ≡ true) env.unit_effects

Has-found :
    (x : Bytes) (u : CgType) (xs : List (Bytes × CgType))
    → Has (x, u) xs
    → (v : CgType) × (find_type xs x ≡ some v)
unfolding find_type
Has-found x u _ (Has.here xs) = (u, (rw ((equal_iff x x).1 refl) refl))
Has-found x u _ (Has.there (n, t) xs h) = elim (Bool-cases (equal n x)) [
  | inl e ↦ (t, (rw e refl))
  | inr e ↦ let (v, p) = Has-found x u xs h in (v, (rw e p))
]

pub known_or-Ends :
    (o : Option CgType) (m : Gen CgType) (s : Declared)
    → (o ≡ none → Ends (m s))
    → Ends (known_or o m s)
known_or-Ends none m s h = h refl
known_or-Ends (some u) m s h = ends_made u s

none_or : {o : Option CgType} {u : CgType} {A : Type 0} → o ≡ some u → o ≡ none → A
none_or p q = absurd (cc (p, q))

module _ (env : Surroundings) where
  -- A name that stands for a type is found on one unit of fuel.
  pub resolve-Ends_at_once :
      (fuel : ℕ) (r : Range) (x : Bytes) (u : CgType) (s : Declared)
      → Named s x u
      → Ends (resolve (suc fuel) env r x s)
  unfolding resolve
  resolve-Ends_at_once fuel r x u s (inl h) =
      known_or-Ends (find_type builtins x) _ s (λ n. none_or h n)
  resolve-Ends_at_once fuel r x u s (inr (inl h)) =
      known_or-Ends (find_type builtins x) _ s
        (λ n. known_or-Ends (find_type s.typedefs x) _ s (λ n'. none_or h n'))
  resolve-Ends_at_once fuel r x u s (inr (inr h)) = known_or-Ends (find_type builtins x) _ s (λ n.
      known_or-Ends (find_type s.typedefs x) _ s
        (λ n'. known_or-Ends (find_type s.effects x) _ s (λ n''. none_or h n'')))

  module _ (gen : AstType → Option Bytes → Gen CgType) (gen-ok : GenOk env gen) where
    pub gen_typedef-Ends :
        (i : ℕ) (d : AstTypedef) (s : Declared)
        → IsSolved env s
        → ((n : Option Bytes) → Ends (gen d.type n s))
        → Ends (gen_typedef gen i d s)
    unfolding gen_typedef
    gen_typedef-Ends i d s k h = elim (Bool-cases (has_number s.made_typedefs i)) [
      | inl e ↦ rw e (ends_made tt s)
      | inr e ↦ rw e (
          Ends-after _ (gen-ok d.type (some d.name) s k) (h (some d.name))
            (λ u t l p. ends_made tt _))
    ]

    pub gen_effect-Ends :
        (i : ℕ) (d : AstEffect) (s : Declared)
        → IsSolved env s
        → ((n : Option Bytes) → Ends (gen d.type n s))
        → Ends (gen_effect gen i d s)
    unfolding gen_effect
    gen_effect-Ends i d s k h = elim (Bool-cases (has_number s.made_effects i)) [
      | inl e ↦ rw e (ends_made tt s)
      | inr e ↦ rw e (Ends-after _ (gen-ok d.type none s k) (h none) (λ u t l p. ends_made tt _))
    ]

    -- The type of every definition of a name ends.
    abbrev NameEnds : Bytes → Bytes → AstType → Type 0
    NameEnds x y t = y ≡ x → (n : Option Bytes) (s : Declared) → IsSolved env s → Ends (gen t n s)

    module _ (x : Bytes) (again : Gen CgType)
        (again-Ends : (u : CgType) (s : Declared) → Named s x u → Ends (again s)) where
      pub effects-Ends :
          (r : Range) (i : ℕ) (ds : List AstEffect) (s : Declared)
          → From env.unit_effects i ds
          → All (λ d. NameEnds x d.name d.type) ds
          → IsSolved env s
          → Ends (search_effects gen again x r i ds s)
      unfolding search_effects
      effects-Ends r i [] s f a k = ends_failed _
      effects-Ends r i (d ∷ ds) s f a k = elim (Bool-cases (equal d.name x)) [
        | inl e ↦ rw e (
            let g = first-From env.unit_effects i d ds f in
            let same = (equal_iff d.name x).0 e in
            Ends-tried again (search_effects gen again x r (i + 1) ds)
              (effect-Leaves env gen gen-ok i d s g k)
              (gen_effect-Ends i d s k (λ n. a.0 same n s k))
              (λ y t l h.
                let (u, p, q) = l.effects_solved i d g h in
                let (v, w) = Has-found x u t.effects (subst (λ z. Has (z, u) t.effects) same p) in
                again-Ends v t (inr (inr w)))
              (λ t l. effects-Ends r (i + 1) ds t (rest-From env.unit_effects i d ds f) a.1 l))
        | inr e ↦ rw e (effects-Ends r (i + 1) ds s (rest-From env.unit_effects i d ds f) a.1 k)
      ]

      pub typedefs-Ends :
          (rest : Gen CgType) (i : ℕ) (ds : List AstTypedef) (s : Declared)
          → ((t : Declared) → IsSolved env t → Ends (rest t))
          → From env.unit_typedefs i ds
          → All (λ d. NameEnds x d.name d.type) ds
          → IsSolved env s
          → Ends (search_typedefs gen again x rest i ds s)
      unfolding search_typedefs
      typedefs-Ends rest i [] s m f a k = m s k
      typedefs-Ends rest i (d ∷ ds) s m f a k = elim (Bool-cases (equal d.name x)) [
        | inl e ↦ rw e (
            let g = first-From env.unit_typedefs i d ds f in
            let same = (equal_iff d.name x).0 e in
            Ends-tried again (search_typedefs gen again x rest (i + 1) ds)
              (typedef-Leaves env gen gen-ok i d s g k)
              (gen_typedef-Ends i d s k (λ n. a.0 same n s k))
              (λ y t l h.
                let (u, p, q) = l.typedefs_solved i d g h in
                let (v, w) = Has-found x u t.typedefs (subst (λ z. Has (z, u) t.typedefs) same p) in
                again-Ends v t (inr (inl w)))
              (λ t l.
                typedefs-Ends rest (i + 1) ds t m (rest-From env.unit_typedefs i d ds f) a.1 l))
        | inr e ↦
            rw e (typedefs-Ends rest (i + 1) ds s m (rest-From env.unit_typedefs i d ds f) a.1 k)
      ]
