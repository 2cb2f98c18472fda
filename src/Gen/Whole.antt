-- ===== src/Gen/Whole.antt =====
-- The types of a whole unit: every definition holds with the others, and printing apart, types are
-- told apart by their structure.
use rox.Gen.Denotes.{Denotes}
use rox.Gen.Made.{Denotes-Made}
use rox.Gen.Solves.{
  From, GenOk, From-all, first-From, rest-From, typedef-Leaves, effect-Leaves, resolve-Named,
}
use rox.Gen.TypeGen.{gen_type}
use rox.Gen.Resolve.{gen_typedefs, gen_unit_effects, gen_declared, resolve}
use rox.Gen.Sorted.{gen_type-Denotes}
use rox.Types.Same.Made.{Made, differ-Made}
use rox.Types.{CgType}
use rox.Lexer.Char.{Bytes}
use rox.Ast.{AstType}
use rox.Units.{AstTypedef, AstEffect}
use mathlib.Core.Path.{subst}
use rox.Prelude.{
  length, get_elem?, All, zero, suc, ◌+◌, ◌<◌, ◌≡◌, refl, arith, true, false, Option, some, List,
  [], ◌∷◌, ◌↔◌, ℕ,
}
use rox.Gen.{find_type, Declared, Surroundings, Gen, made, nothing_declared, has_number}
use rox.Gen.Leaves.{
  Named, Leaves, IsSolved, TypedefSolved, EffectSolved, Leaves-after, Leaves-pure, Leaves-refine,
  Leaves-result,
}
use rox.Gen.Denotes.{Denotes}
use rox.Types.Same.{differ}
use rox.Types.Same.Erased.{erase}
use rox.Gen.Listed.{Named-Made}

-- The numbers from one on.
abbrev Numbered : List ℕ → ℕ → ℕ → Type 0
Numbered js i n = (j : ℕ) → j < n → has_number js (i + j) ≡ true

one_more :
    (js : List ℕ) (i n : ℕ) → has_number js i ≡ true → Numbered js (i + 1) n → Numbered js i (suc n)
one_more js i n h f zero l =
    let e : i ≡ i + 0 = omega arith in subst (λ k. has_number js k ≡ true) e h
one_more js i n h f (suc j) l =
    let e : i + 1 + j ≡ i + suc j = omega arith in
    subst (λ k. has_number js k ≡ true) e (f j (omega arith))

from_zero : (js : List ℕ) (n : ℕ) → Numbered js 0 n → (j : ℕ) → j < n → has_number js j ≡ true
from_zero js n f j l =
    let e : 0 + j ≡ j = omega arith in subst (λ k. has_number js k ≡ true) e (f j l)

-- What holds of every numbered element.
All-numbered :
    {A : Type 0} (P : A → Type 0) (ds : List A)
    → ((j : ℕ) (d : A) → j < length ds → get_elem? ds j ≡ some d → P d)
    → All P ds
All-numbered P [] f = tt
All-numbered P (d ∷ ds) f =
    (f 0 d (omega arith) refl, All-numbered P ds (λ j c l h. f (suc j) c (omega arith) h))

module _ (env : Surroundings) where
  module _ (gen : AstType → Option Bytes → Gen CgType) (gen-ok : GenOk env gen) where
    pub typedefs-Numbered :
        (i : ℕ) (ds : List AstTypedef) (s : Declared)
        → From env.unit_typedefs i ds
        → IsSolved env s
        → Leaves env (λ x t. Numbered t.made_typedefs i (length ds)) s (gen_typedefs gen i ds s)
    unfolding gen_typedefs
    typedefs-Numbered i [] s f k = Leaves-pure tt s k (λ j h. absurd (omega arith))
    typedefs-Numbered i (d ∷ ds) s f k =
        Leaves-after _
          (typedef-Leaves env gen gen-ok i d s (first-From env.unit_typedefs i d ds f) k)
          (λ x t e l h.
            Leaves-refine (λ y u v n. one_more u.made_typedefs i (length ds) (v.typedef_made i h) n)
              (typedefs-Numbered (i + 1) ds t (rest-From env.unit_typedefs i d ds f) l))

    effects-Numbered :
        (i : ℕ) (ds : List AstEffect) (s : Declared)
        → From env.unit_effects i ds
        → IsSolved env s
        → Leaves env (λ x t. Numbered t.made_effects i (length ds)) s (gen_unit_effects gen i ds s)
    unfolding gen_unit_effects
    effects-Numbered i [] s f k = Leaves-pure tt s k (λ j h. absurd (omega arith))
    effects-Numbered i (d ∷ ds) s f k =
        Leaves-after _ (effect-Leaves env gen gen-ok i d s (first-From env.unit_effects i d ds f) k)
          (λ x t e l h.
            Leaves-refine (λ y u v n. one_more u.made_effects i (length ds) (v.effect_made i h) n)
              (effects-Numbered (i + 1) ds t (rest-From env.unit_effects i d ds f) l))

  pub nothing-IsSolved : IsSolved env nothing_declared
  unfolding has_number find_type
  nothing-IsSolved = record {
    typedefs_solved = λ i d g h. absurd (cc h);
    effects_solved = λ i d g h. absurd (cc h);
    typedefs_made = λ x u h. absurd (cc h);
    effects_made = λ x u h. absurd (cc h);
  }

  declared-Numbered :
      (fuel : ℕ)
      → Leaves env
          (λ x t.
            Numbered t.made_typedefs 0 (length env.unit_typedefs)
            × Numbered t.made_effects 0 (length env.unit_effects))
          nothing_declared
          (gen_declared fuel env nothing_declared)
  unfolding gen_declared
  declared-Numbered fuel =
      let ok = gen_type-Denotes env (resolve fuel env) (resolve-Named env fuel) in
      Leaves-after _
        (typedefs-Numbered (gen_type (resolve fuel env) env) ok 0 env.unit_typedefs nothing_declared
          (From-all env.unit_typedefs) nothing-IsSolved)
        (λ x t e k n.
          Leaves-refine (λ y u v m. ((λ j l. v.typedef_made (0 + j) (n j l)), m))
            (effects-Numbered (gen_type (resolve fuel env) env) ok 0 env.unit_effects t
              (From-all env.unit_effects) k))

  declared-result :
      (fuel : ℕ) (s : Declared)
      → gen_declared fuel env nothing_declared ≡ made tt s
      → IsSolved env s
        × (Numbered s.made_typedefs 0 (length env.unit_typedefs)
            × Numbered s.made_effects 0 (length env.unit_effects))
  declared-result fuel s h = Leaves-result (
      subst
        (λ o.
          Leaves env
            (λ x t.
              Numbered t.made_typedefs 0 (length env.unit_typedefs)
              × Numbered t.made_effects 0 (length env.unit_effects))
            nothing_declared o)
        h (declared-Numbered fuel))

-- Once the loops of `AstUnit::codegen` over the type definitions and effects have returned, on
-- any fuel, every type definition of the unit is listed with a type that its node denotes when
-- each name in it stands for a builtin type or for what is listed under that name at the end,
-- whatever order the definitions are written in; and so is every effect.
pub gen_declared-TypedefSolved :
    (fuel : ℕ) (env : Surroundings) (s : Declared)
    → gen_declared fuel env nothing_declared ≡ made tt s
    → All (TypedefSolved env s) env.unit_typedefs × All (EffectSolved env s) env.unit_effects
gen_declared-TypedefSolved fuel env s h =
    let r = declared-result env fuel s h in
    (
      All-numbered (TypedefSolved env s) env.unit_typedefs
          (λ j d l g. r.0.typedefs_solved j d g (from_zero s.made_typedefs _ r.1.0 j l)),
      All-numbered (EffectSolved env s) env.unit_effects
          (λ j d l g. r.0.effects_solved j d g (from_zero s.made_effects _ r.1.1 j l)),
    )

gen_type-Made :
    (fuel : ℕ) (env : Surroundings) (t : AstType) (n : Option Bytes) (s s' : Declared) (u : CgType)
    → IsSolved env s
    → gen_type (resolve fuel env) env t n s ≡ made u s'
    → IsSolved env s' × Made u
gen_type-Made fuel env t n s s' u k h =
    let l = gen_type-Denotes env (resolve fuel env) (resolve-Named env fuel) t n s k in
    let r =
      Leaves-result (subst (λ o. Leaves env (λ v t'. Denotes (Named t') env t n v) s o) h l) in
    (r.0, Denotes-Made env (Named-Made r.0) t n u r.1)

-- For the types that are generated for any two nodes, one after the other, once the type
-- definitions and effects of a unit are generated, `operator!=` is false exactly when the types
-- are equal once names and fields are taken out everywhere.
pub gen_type-differ :
    (fuel : ℕ) (env : Surroundings) (t t' : AstType) (n n' : Option Bytes) (s s1 s2 : Declared)
    (u u' : CgType)
    → gen_declared fuel env nothing_declared ≡ made tt s
    → gen_type (resolve fuel env) env t n s ≡ made u s1
    → gen_type (resolve fuel env) env t' n' s1 ≡ made u' s2
    → (differ u u' ≡ false) ↔ (erase u ≡ erase u')
gen_type-differ fuel env t t' n n' s s1 s2 u u' h h1 h2 =
    let a = gen_type-Made fuel env t n s s1 u (declared-result env fuel s h).0 h1 in
    let b = gen_type-Made fuel env t' n' s1 s2 u' a.0 h2 in differ-Made u u' a.1 b.1
