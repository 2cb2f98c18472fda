-- ===== src/Gen/Terminates.antt =====
-- `AstUnit::codegen` of a unit whose type definitions and effects can be ranked.
use rox.Gen.Whole.{nothing-IsSolved, typedefs-Numbered}
use rox.Prelude.{
  All, zero, suc, ◌+◌, ◌≤◌, ◌<◌, ◌≡◌, refl, arith, ◌⊎◌, inl, inr, Bool, true, false, Option, none,
  some, List, [], ◌∷◌, ltb, ◌||◌, ℕ, ap, ◌∙◌,
}
use rox.Ast.{AstType}
use rox.Lexer.Char.{Bytes}
use rox.Lexer.Token.{Range}
use rox.Types.{CgType}
use rox.Units.{AstTypedef, AstEffect}
use rox.Gen.{Declared, Outcome, Surroundings, Gen, spent, find_type, nothing_declared}
use rox.Gen.TypeGen.{gen_type, builtins}
use rox.Gen.Resolve.{resolve, gen_typedefs, gen_unit_effects, gen_declared}
use rox.Gen.Leaves.{IsSolved}
use rox.Gen.Solves.{
  From, GenOk, From-all, first-From, rest-From, typedef-Leaves, effect-Leaves, resolve-Named,
}
use rox.Gen.Sorted.{gen_type-Denotes}
use rox.Gen.Ends.{Ends, ends_made, ends_failed, ends_broken, Ends-after}
use rox.Gen.Below.{below, gen_type-Ends}
use rox.Gen.Asks.{ranked, found}
use mathlib.Core.Path.{subst}
use rox.Gen.Ranked.{
  IsRanked, known_or-Ends, resolve-Ends_at_once, gen_typedef-Ends, gen_effect-Ends, effects-Ends,
  typedefs-Ends,
}

both_of : (b c : Bool) → (b || c) ≡ true → (b ≡ true) ⊎ (c ≡ true)
both_of true c h = inl refl
both_of false c h = inr h

is_found : (o : Option CgType) → found o ≡ true → (u : CgType) × (o ≡ some u)
is_found (some u) h = (u, refl)
is_found none h = absurd (cc h)

module _ (env : Surroundings) (rank : Bytes → ℕ) (ok : IsRanked env rank) where
  -- A look-up ends on two units of fuel more than the rank of the name.
  module _ (gen : AstType → Option Bytes → Gen CgType) (m : ℕ)
      (gen-Ends : (t : AstType) (n : Option Bytes) (s : Declared)
        → IsSolved env s
        → below rank m t ≡ true
        → Ends (gen t n s)) where
    typedefs_end :
        (x : Bytes) (ds : List AstTypedef)
        → rank x ≡ m
        → All (λ d. below rank (rank d.name) d.type ≡ true) ds
        → All
            (λ d.
              (d.name ≡ x
                → (n : Option Bytes) (s : Declared) → IsSolved env s
                → Ends (gen d.type n s)))
            ds
    typedefs_end x [] e a = tt
    typedefs_end x (d ∷ ds) e a = (
      (λ same n s k.
          gen-Ends d.type n s k (subst (λ j. below rank j d.type ≡ true) (ap rank same ∙ e) a.0)),
      (typedefs_end x ds e a.1),
    )

    effects_end :
        (x : Bytes) (ds : List AstEffect)
        → rank x ≡ m
        → All (λ d. below rank (rank d.name) d.type ≡ true) ds
        → All
            (λ d.
              (d.name ≡ x
                → (n : Option Bytes) (s : Declared) → IsSolved env s
                → Ends (gen d.type n s)))
            ds
    effects_end x [] e a = tt
    effects_end x (d ∷ ds) e a = (
      (λ same n s k.
          gen-Ends d.type n s k (subst (λ j. below rank j d.type ≡ true) (ap rank same ∙ e) a.0)),
      (effects_end x ds e a.1),
    )

  ranked-Ends :
      (fuel m : ℕ)
      → m < fuel
      → ((r : Range) (x : Bytes) (s : Declared)
          → IsSolved env s
          → rank x + 2 ≤ fuel
          → Ends (resolve fuel env r x s))
      → (r : Range) (x : Bytes) (s : Declared) → IsSolved env s
      → ranked rank m x ≡ true
      → Ends (resolve fuel env r x s)
  unfolding ranked
  ranked-Ends zero m l f r x s k h = absurd (omega arith)
  ranked-Ends (suc fuel) m l f r x s k h =
      elim (both_of (found (find_type builtins x)) (ltb (rank x) m) h) [
        | inl e ↦
            let (u, p) = is_found (find_type builtins x) e in
            resolve-Ends_at_once env fuel r x u s (inl p)
        | inr e ↦ let b : rank x + 2 ≤ suc fuel = ground (arith, e) in f r x s k b
      ]

  resolve-Ends :
      (fuel : ℕ) (r : Range) (x : Bytes) (s : Declared)
      → IsSolved env s
      → rank x + 2 ≤ fuel
      → Ends (resolve fuel env r x s)
  unfolding resolve
  resolve-Ends zero r x s k l = absurd (omega arith)
  resolve-Ends (suc zero) r x s k l = absurd (omega arith)
  resolve-Ends (suc (suc fuel)) r x s k l =
      let look = λ (q : Range) (y : Bytes) (t : Declared). resolve-Named env (suc fuel) q y t in
      let gen-ok = gen_type-Denotes env (resolve (suc fuel) env) look in
      let gen-Ends = gen_type-Ends env (resolve (suc fuel) env) look rank (rank x) (
        ranked-Ends (suc fuel) (rank x) (omega arith)
          (λ q y t j b. resolve-Ends (suc fuel) q y t j b)) in
      let gen = gen_type (resolve (suc fuel) env) env in
      let again-Ends = λ (u : CgType) (t : Declared). resolve-Ends_at_once env fuel r x u t in
      known_or-Ends (find_type builtins x) _ s (λ _.
        known_or-Ends (find_type s.typedefs x) _ s (λ _.
          known_or-Ends (find_type s.effects x) _ s (λ _.
            typedefs-Ends env gen gen-ok x (resolve (suc fuel) env r x) again-Ends _ 0
              env.unit_typedefs s
              (λ t j.
                effects-Ends env gen gen-ok x (resolve (suc fuel) env r x) again-Ends r 0
                  env.unit_effects t (From-all env.unit_effects)
                  (effects_end gen (rank x) gen-Ends x env.unit_effects refl ok.effects_below) j)
              (From-all env.unit_typedefs)
              (typedefs_end gen (rank x) gen-Ends x env.unit_typedefs refl ok.typedefs_below) k)))

  -- The loops over the definitions.
  module _ (fuel : ℕ) where
    gen_type-Ends_enough :
        (t : AstType) (m : ℕ)
        → m < fuel
        → below rank m t ≡ true
        → (n : Option Bytes) (s : Declared) → IsSolved env s
        → Ends (gen_type (resolve fuel env) env t n s)
    gen_type-Ends_enough t m l h n s k =
        gen_type-Ends env (resolve fuel env) (λ q y u. resolve-Named env fuel q y u) rank m
          (ranked-Ends fuel m l (λ q y u j b. resolve-Ends fuel q y u j b)) t n s k h

    gen-ok : GenOk env (gen_type (resolve fuel env) env)
    gen-ok = gen_type-Denotes env (resolve fuel env) (λ q y u. resolve-Named env fuel q y u)

    loop_typedefs-Ends :
        (i : ℕ) (ds : List AstTypedef) (s : Declared)
        → From env.unit_typedefs i ds
        → All (λ d. below rank (rank d.name) d.type ≡ true) ds
        → All (λ d. rank d.name < fuel) ds
        → IsSolved env s
        → Ends (gen_typedefs (gen_type (resolve fuel env) env) i ds s)
    unfolding gen_typedefs
    loop_typedefs-Ends i [] s f a b k = ends_made tt s
    loop_typedefs-Ends i (d ∷ ds) s f a b k =
        Ends-after _
          (typedef-Leaves env (gen_type (resolve fuel env) env) gen-ok i d s
            (first-From env.unit_typedefs i d ds f) k)
          (gen_typedef-Ends env (gen_type (resolve fuel env) env) gen-ok i d s k
            (λ n. gen_type-Ends_enough d.type (rank d.name) b.0 a.0 n s k))
          (λ _ t j _.
            loop_typedefs-Ends (i + 1) ds t (rest-From env.unit_typedefs i d ds f) a.1 b.1 j)

    loop_effects-Ends :
        (i : ℕ) (ds : List AstEffect) (s : Declared)
        → From env.unit_effects i ds
        → All (λ d. below rank (rank d.name) d.type ≡ true) ds
        → All (λ d. rank d.name < fuel) ds
        → IsSolved env s
        → Ends (gen_unit_effects (gen_type (resolve fuel env) env) i ds s)
    unfolding gen_unit_effects
    loop_effects-Ends i [] s f a b k = ends_made tt s
    loop_effects-Ends i (d ∷ ds) s f a b k =
        Ends-after _
          (effect-Leaves env (gen_type (resolve fuel env) env) gen-ok i d s
            (first-From env.unit_effects i d ds f) k)
          (gen_effect-Ends env (gen_type (resolve fuel env) env) gen-ok i d s k
            (λ n. gen_type-Ends_enough d.type (rank d.name) b.0 a.0 n s k))
          (λ _ t j _.
            loop_effects-Ends (i + 1) ds t (rest-From env.unit_effects i d ds f) a.1 b.1 j)

Ends-spent : {A : Type 0} {o : Outcome A} → Ends o → o ≡ spent → ⊥
Ends-spent (ends_made a s) h = absurd (cc h)
Ends-spent (ends_failed s) h = absurd (cc h)
Ends-spent ends_broken h = absurd (cc h)

-- When the type definitions and effects of a unit can be ranked so that the type of each one,
-- and each `of` in its array extents, names builtin types and names of lower ranks only, with
-- enumerators made of literals and operators, and each of their ranks is below the fuel, then
-- the loops over them do not run out of fuel.
pub gen_declared-ranked :
    (fuel : ℕ) (env : Surroundings) (rank : Bytes → ℕ)
    → IsRanked env rank
    → All (λ d. rank d.name < fuel) env.unit_typedefs
    → All (λ d. rank d.name < fuel) env.unit_effects
    → ¬ (gen_declared fuel env nothing_declared ≡ spent)
unfolding gen_declared
gen_declared-ranked fuel env rank ok a b = Ends-spent (
    Ends-after _
      (typedefs-Numbered env (gen_type (resolve fuel env) env) (gen-ok env rank ok fuel) 0
        env.unit_typedefs nothing_declared (From-all env.unit_typedefs) (nothing-IsSolved env))
      (loop_typedefs-Ends env rank ok fuel 0 env.unit_typedefs nothing_declared
        (From-all env.unit_typedefs) ok.typedefs_below a (nothing-IsSolved env))
      (λ _ t j _.
        loop_effects-Ends env rank ok fuel 0 env.unit_effects t (From-all env.unit_effects)
          ok.effects_below b j))
