-- ===== src/Gen/Cycles.antt =====
-- Type definitions that ask for themselves.
use mathlib.Core.Path.{subst}
use rox.Prelude.{equal_iff}
use rox.Gen.TypeGen.{gen_type, builtins}
use rox.Gen.Resolve.{
  gen_typedef, search_typedefs, search_effects, gen_typedefs, gen_declared, resolve,
}
use rox.Types.{CgType}
use rox.Ast.{AstType, Attrs, ptr_type, ident_type}
use rox.Units.{AstTypedef}
use rox.Prelude.{zero, suc, ◌≡◌, refl, true, Option, none, List, ◌∷◌, ℕ, sym}
use rox.Gen.{
  equal, Bytes, Range, Declared, Surroundings, Gen, spent, nothing_declared, has_number, find_type,
}

-- The first type definition of a unit is a pointer to itself.
pub record IsOwnPointer (env : Surroundings) (d : AstTypedef) (ds : List AstTypedef) : Type 0 where
  pub first : env.unit_typedefs ≡ d ∷ ds
  pub range : Range
  pub inner : Range
  pub attrs : Attrs
  pub inner_attrs : Attrs
  pub points : d.type ≡ ptr_type range (ident_type inner d.name inner_attrs) attrs
  pub new_name : find_type builtins d.name ≡ none

equal_self : (x : Bytes) → equal x x ≡ true
equal_self x = (equal_iff x x).1 refl

search-first :
    (gen : AstType → Option Bytes → Gen CgType) (again rest : Gen CgType) (d : AstTypedef)
    (ds : List AstTypedef) (s : Declared)
    → gen_typedef gen 0 d s ≡ spent
    → search_typedefs gen again d.name rest 0 (d ∷ ds) s ≡ spent
unfolding search_typedefs
search-first gen again rest d ds s h = rw (equal_self d.name, h) refl

gen_typedefs-first :
    (gen : AstType → Option Bytes → Gen CgType) (d : AstTypedef) (ds : List AstTypedef)
    (s : Declared)
    → gen_typedef gen 0 d s ≡ spent
    → gen_typedefs gen 0 (d ∷ ds) s ≡ spent
unfolding gen_typedefs
gen_typedefs-first gen d ds s h = rw h refl

module _ (env : Surroundings) (d : AstTypedef) (ds : List AstTypedef)
    (own : IsOwnPointer env d ds) where
  typedef-spent :
      (look : Range → Bytes → Gen CgType)
      → ((r : Range) → look r d.name nothing_declared ≡ spent)
      → gen_typedef (gen_type look env) 0 d nothing_declared ≡ spent
  unfolding gen_typedef has_number gen_type
  typedef-spent look h = rw (own.points, h own.inner) refl

  resolve-spent : (fuel : ℕ) (r : Range) → resolve fuel env r d.name nothing_declared ≡ spent
  unfolding resolve find_type
  resolve-spent zero r = refl
  resolve-spent (suc fuel) r =
      let gen = gen_type (resolve fuel env) env in
      let again = resolve fuel env r d.name in
      rw (own.new_name) (
        subst
          (λ l.
            search_typedefs gen again d.name (search_effects gen again d.name r 0 env.unit_effects)
              0 l nothing_declared
            ≡ spent)
          (sym own.first)
          (search-first gen again _ d ds nothing_declared
            (typedef-spent (resolve fuel env) (λ q. resolve-spent fuel q))))

-- For a unit whose first type definition is a pointer to itself, under a name that is not
-- builtin, no fuel is enough for the loop over the type definitions: the definition is generated
-- again each time that its own name is looked for.
pub gen_declared-spent :
    (fuel : ℕ) (env : Surroundings) (d : AstTypedef) (ds : List AstTypedef)
    → IsOwnPointer env d ds
    → gen_declared fuel env nothing_declared ≡ spent
unfolding gen_declared
gen_declared-spent fuel env d ds own =
    let gen = gen_type (resolve fuel env) env in
    let h : gen_typedefs gen 0 env.unit_typedefs nothing_declared ≡ spent =
      subst (λ l. gen_typedefs gen 0 l nothing_declared ≡ spent) (sym own.first)
        (gen_typedefs-first gen d ds nothing_declared (
          typedef-spent env d ds own (resolve fuel env)
            (λ q. resolve-spent env d ds own fuel q))) in
    rw h refl
