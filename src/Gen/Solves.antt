-- ===== src/Gen/Solves.antt =====
-- The type definitions and effects of a unit, once all of them are generated.
use rox.Gen.Leaves.{Leaves-tried}
use mathlib.Core.Path.{subst}
use rox.Gen.TypeGen.{gen_type, builtins}
use rox.Gen.Resolve.{gen_typedef, gen_effect, search_effects, search_typedefs, known_or, resolve}
use rox.Gen.Listed.{
  Extends-list_typedef, Extends-list_effect, IsSolved-list_typedef, IsSolved-list_effect,
}
use rox.Gen.Sorted.{gen_type-Denotes}
use rox.Gen.Denotes.{Denotes}
use rox.Types.{CgType}
use rox.Lexer.Char.{Bytes}
use rox.Lexer.Token.{Range}
use rox.Ast.{AstType}
use rox.Prelude.{
  get_elem?, Bool-cases, zero, suc, ◌+◌, ◌≡◌, refl, arith, inl, inr, true, Option, none, some, List,
  [], ◌∷◌, ℕ,
}
use rox.Gen.{equal, Declared, Surroundings, Gen, find_type, has_number}
use rox.Gen.Extends.{has_number_new}
use rox.Gen.Leaves.{Named, Leaves, IsSolved, Leaves-after, Leaves-pure, Leaves-error}
use rox.Units.{AstTypedef, AstEffect}

-- The nodes from a number on.
abbrev pub From : {A : Type 0} → List A → ℕ → List A → Type 0
From {A = A} all i ds = (j : ℕ) (d : A) → get_elem? ds j ≡ some d → get_elem? all (i + j) ≡ some d

pub From-all : {A : Type 0} (all : List A) → From all 0 all
From-all all j d h = let e : j ≡ 0 + j = omega arith in subst (λ k. get_elem? all k ≡ some d) e h

pub first-From :
    {A : Type 0} (all : List A) (i : ℕ) (d : A) (ds : List A)
    → From all i (d ∷ ds)
    → get_elem? all i ≡ some d
first-From all i d ds f =
    let e : i + 0 ≡ i = omega arith in subst (λ j. get_elem? all j ≡ some d) e (f 0 d refl)

pub rest-From :
    {A : Type 0} (all : List A) (i : ℕ) (d : A) (ds : List A)
    → From all i (d ∷ ds)
    → From all (i + 1) ds
rest-From all i d ds f j c h =
    let e : i + suc j ≡ i + 1 + j = omega arith in
    subst (λ k. get_elem? all k ≡ some c) e (f (suc j) c h)

module _ (env : Surroundings) where
  abbrev pub GenOk : (AstType → Option Bytes → Gen CgType) → Type 0
  GenOk gen =
      (t : AstType) (n : Option Bytes) (s : Declared)
      → IsSolved env s
      → Leaves env (λ u s'. Denotes (Named s') env t n u) s (gen t n s)

  module _ (gen : AstType → Option Bytes → Gen CgType) (gen-ok : GenOk gen) where
    pub typedef-Leaves :
        (i : ℕ) (d : AstTypedef) (s : Declared)
        → get_elem? env.unit_typedefs i ≡ some d
        → IsSolved env s
        → Leaves env (λ x t. has_number t.made_typedefs i ≡ true) s (gen_typedef gen i d s)
    unfolding gen_typedef
    typedef-Leaves i d s g k = elim (Bool-cases (has_number s.made_typedefs i)) [
      | inl e ↦ rw e (Leaves-pure tt s k e)
      | inr e ↦ rw e (
          Leaves-after _ (gen-ok d.type (some d.name) s k) (λ u t x l p.
            Leaves.leaves_made tt _ (Extends-list_typedef i d.name u t)
              (IsSolved-list_typedef env i d u t g l p) (has_number_new i t.made_typedefs)))
    ]

    pub effect-Leaves :
        (i : ℕ) (d : AstEffect) (s : Declared)
        → get_elem? env.unit_effects i ≡ some d
        → IsSolved env s
        → Leaves env (λ x t. has_number t.made_effects i ≡ true) s (gen_effect gen i d s)
    unfolding gen_effect
    effect-Leaves i d s g k = elim (Bool-cases (has_number s.made_effects i)) [
      | inl e ↦ rw e (Leaves-pure tt s k e)
      | inr e ↦ rw e (
          Leaves-after _ (gen-ok d.type none s k) (λ u t x l p.
            Leaves.leaves_made tt _ (Extends-list_effect i d.name u t)
              (IsSolved-list_effect env i d u t g l p) (has_number_new i t.made_effects)))
    ]

    module _ (x : Bytes) (again : Gen CgType)
        (again-Named : (s : Declared)
          → IsSolved env s
          → Leaves env (λ u t. Named t x u) s (again s)) where
      effects-Leaves :
          (r : Range) (i : ℕ) (ds : List AstEffect) (s : Declared)
          → From env.unit_effects i ds
          → IsSolved env s
          → Leaves env (λ u t. Named t x u) s (search_effects gen again x r i ds s)
      unfolding search_effects
      effects-Leaves r i [] s f k = Leaves-error r _ s k
      effects-Leaves r i (d ∷ ds) s f k = elim (Bool-cases (equal d.name x)) [
        | inl e ↦ rw e (
            Leaves-tried again (search_effects gen again x r (i + 1) ds)
              (effect-Leaves i d s (first-From env.unit_effects i d ds f) k) again-Named
              (λ t l. effects-Leaves r (i + 1) ds t (rest-From env.unit_effects i d ds f) l))
        | inr e ↦ rw e (effects-Leaves r (i + 1) ds s (rest-From env.unit_effects i d ds f) k)
      ]

      typedefs-Leaves :
          (rest : Gen CgType) (i : ℕ) (ds : List AstTypedef) (s : Declared)
          → ((t : Declared) → IsSolved env t → Leaves env (λ u t'. Named t' x u) t (rest t))
          → From env.unit_typedefs i ds
          → IsSolved env s
          → Leaves env (λ u t. Named t x u) s (search_typedefs gen again x rest i ds s)
      unfolding search_typedefs
      typedefs-Leaves rest i [] s m f k = m s k
      typedefs-Leaves rest i (d ∷ ds) s m f k = elim (Bool-cases (equal d.name x)) [
        | inl e ↦ rw e (
            Leaves-tried again (search_typedefs gen again x rest (i + 1) ds)
              (typedef-Leaves i d s (first-From env.unit_typedefs i d ds f) k) again-Named
              (λ t l. typedefs-Leaves rest (i + 1) ds t m (rest-From env.unit_typedefs i d ds f) l))
        | inr e ↦
            rw e (typedefs-Leaves rest (i + 1) ds s m (rest-From env.unit_typedefs i d ds f) k)
      ]

  known-Named :
      (x : Bytes) (o : Option CgType) (m : Gen CgType) (s : Declared)
      → ((u : CgType) → o ≡ some u → Named s x u)
      → IsSolved env s
      → Leaves env (λ u t. Named t x u) s (m s)
      → Leaves env (λ u t. Named t x u) s (known_or o m s)
  known-Named x none m s h k l = l
  known-Named x (some u) m s h k l = Leaves-pure u s k (h u refl)

  pub resolve-Named :
      (fuel : ℕ) (r : Range) (x : Bytes) (s : Declared)
      → IsSolved env s
      → Leaves env (λ u t. Named t x u) s (resolve fuel env r x s)
  unfolding resolve
  resolve-Named zero r x s k = Leaves.leaves_spent
  resolve-Named (suc fuel) r x s k =
      let gen-ok = gen_type-Denotes env (resolve fuel env) (λ q y t. resolve-Named fuel q y t) in
      let again = resolve fuel env r x in
      let again-ok = λ (t : Declared). resolve-Named fuel r x t in
      known-Named x (find_type builtins x) _ s (λ u h. inl h) k
        (known-Named x (find_type s.typedefs x) _ s (λ u h. inr (inl h)) k
          (known-Named x (find_type s.effects x) _ s (λ u h. inr (inr h)) k
            (typedefs-Leaves (gen_type (resolve fuel env) env) gen-ok x again again-ok _ 0
              env.unit_typedefs s
              (λ t l.
                effects-Leaves (gen_type (resolve fuel env) env) gen-ok x again again-ok r 0
                  env.unit_effects t (From-all env.unit_effects) l)
              (From-all env.unit_typedefs) k)))
