-- ===== src/Gen/Resolve.antt =====
-- cg_type.cpp and cg_unit.cpp: names of types, and the type definitions and effects of a unit, which
-- names ask for before their turn.
use rox.Prelude.{zero, suc, ◌+◌, if◌then◌else◌, Option, none, some, List, [], ◌∷◌, ◌++◌, ℕ}
use rox.Gen.TypeGen.{gen_type, builtins}
use rox.Gen.{
  Declared, find_type, Problem, equal, error, has_number, AstEffect, AstTypedef, pure, Bytes, Gen,
  Range, AstType, CgType, Surroundings, after, tried, ◌>>◌, made, spent,
}

-- Behind a type definition, or an effect, that is generated.
abbrev pub list_typedef : ℕ → Bytes → CgType → Declared → Declared
list_typedef i name t s = record s {
  typedefs = s.typedefs ++ ((name, t) ∷ []);
  made_typedefs = i ∷ s.made_typedefs;
}

abbrev pub list_effect : ℕ → Bytes → CgType → Declared → Declared
list_effect i name t s = record s {
  effects = s.effects ++ ((name, t) ∷ []);
  made_effects = i ∷ s.made_effects;
}

module _ (gen : AstType → Option Bytes → Gen CgType) where
  -- `AstTypedef::codegen` of the unit's type definition of a number.
  unfoldable pub gen_typedef : ℕ → AstTypedef → Gen (Unit {0})
  gen_typedef i d s =
      if has_number s.made_typedefs i
      then made tt s
      else after (gen d.type (some d.name) s) (λ t s'. made tt (list_typedef i d.name t s'))

  -- `AstEffect::codegen`.
  unfoldable pub gen_effect : ℕ → AstEffect → Gen (Unit {0})
  gen_effect i d s =
      if has_number s.made_effects i
      then made tt s
      else after (gen d.type none s) (λ t s'. made tt (list_effect i d.name t s'))

  module _ (again : Gen CgType) (name : Bytes) where
    -- The loops over the unit's effects and type definitions.
    unfoldable pub search_effects : Range → ℕ → List AstEffect → Gen CgType
    search_effects r i [] s = error r Problem.undeclared s
    search_effects r i (d ∷ ds) s =
        if equal d.name name
        then tried (gen_effect i d s) again (search_effects r (i + 1) ds)
        else search_effects r (i + 1) ds s

    unfoldable pub search_typedefs : Gen CgType → ℕ → List AstTypedef → Gen CgType
    search_typedefs rest i [] s = rest s
    search_typedefs rest i (d ∷ ds) s =
        if equal d.name name
        then tried (gen_typedef i d s) again (search_typedefs rest (i + 1) ds)
        else search_typedefs rest (i + 1) ds s

abbrev pub known_or : Option CgType → Gen CgType → Gen CgType
known_or none m = m
known_or (some t) m = pure t

-- `AstIdentType::codegen`: it calls itself once a type definition or an effect is there.
unfoldable pub resolve : ℕ → Surroundings → Range → Bytes → Gen CgType
resolve zero env r name s = spent
resolve (suc fuel) env r name s =
    let again = resolve fuel env r name in
    let gen = gen_type (resolve fuel env) env in
    known_or (find_type builtins name)
      (known_or (find_type s.typedefs name) (
        known_or (find_type s.effects name) (
          search_typedefs gen again name (search_effects gen again name r 0 env.unit_effects) 0
            env.unit_typedefs)))
      s

-- The loops of `AstUnit::codegen` over the type definitions and the effects.
unfoldable pub gen_typedefs :
    (AstType → Option Bytes → Gen CgType) → ℕ → List AstTypedef → Gen (Unit {0})
gen_typedefs gen i [] = pure tt
gen_typedefs gen i (d ∷ ds) = do gen_typedef gen i d; gen_typedefs gen (i + 1) ds

unfoldable pub gen_unit_effects :
    (AstType → Option Bytes → Gen CgType) → ℕ → List AstEffect → Gen (Unit {0})
gen_unit_effects gen i [] = pure tt
gen_unit_effects gen i (d ∷ ds) = do gen_effect gen i d; gen_unit_effects gen (i + 1) ds

unfoldable pub gen_declared : ℕ → Surroundings → Gen (Unit {0})
gen_declared fuel env = do
  gen_typedefs (gen_type (resolve fuel env) env) 0 env.unit_typedefs
  gen_unit_effects (gen_type (resolve fuel env) env) 0 env.unit_effects
