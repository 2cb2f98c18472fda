-- ===== src/Tests/DeclaredWitnesses.antt =====
-- The theorems on the types that code generation makes, at concrete inputs.
use rox.Prelude.{if◌then◌else◌}
use rox.Gen.Terminates.{gen_declared-ranked}
use rox.Gen.Ranked.{IsRanked}
use rox.Gen.Below.{below, below_elems}
use rox.Gen.Asks.{ranked}
use rox.Prelude.{arith, codes, equal, All, ◌≡◌, refl, false, none, [], ◌∷◌, ℕ}
use rox.Ast.{AstType, tuple_type, ptr_type, ident_type, no_elems, elem, no_attrs}
use rox.Units.{AstTypedef}
use rox.Lexer.Token.{Range}
use rox.Lexer.Char.{Bytes}
use rox.Eval.{Known}
use rox.Types.{CgType}
use rox.Types.Make.{u8_type}
use rox.Gen.{Declared, Outcome, Surroundings, made, nothing_declared, find_type, spent, has_number}
use rox.Gen.TypeGen.{gen_type, builtins, gen_elems}
use rox.Gen.Resolve.{
  resolve, gen_declared, gen_typedefs, gen_unit_effects, gen_typedef, gen_effect, search_typedefs,
  search_effects,
}
use rox.Gen.Leaves.{TypedefSolved, EffectSolved}
use rox.Gen.Whole.{gen_declared-TypedefSolved}
use rox.Gen.Cycles.{gen_declared-spent, IsOwnPointer}

abbrev pub here : Range
here = record { offset = 0; length = 0 }

abbrev pub name_type : Bytes → AstType
name_type x = ident_type here x no_attrs

abbrev pub define : Bytes → AstType → AstTypedef
define x t = record { range = here; name = x; type = t; attrs = no_attrs }

abbrev pub known_nothing : Known
known_nothing = record { globals = []; property = λ e x. none; of_float = λ k x. 0 }

-- `type A = (B, Uint8); type B = *C; type C = Uint32;`.
abbrev pub chain : Surroundings
chain = record {
  unit_typedefs =
      define (codes "A") (
        tuple_type here (elem (name_type (codes "B")) (elem (name_type (codes "Uint8")) no_elems))
          no_attrs)
      ∷ define (codes "B") (ptr_type here (name_type (codes "C")) no_attrs)
      ∷ define (codes "C") (name_type (codes "Uint32"))
      ∷ [];
  unit_effects = [];
  known = known_nothing;
  infers = λ e. false;
}

abbrev state_after : {A : Type 0} → Outcome A → Declared
state_after (made a s) = s
state_after _ = nothing_declared

abbrev result_or : Outcome CgType → CgType
result_or (made t s) = t
result_or _ = u8_type

chain_state : Declared
unfolding gen_declared gen_typedefs gen_unit_effects gen_typedef gen_effect resolve gen_type
    gen_elems find_type builtins search_typedefs search_effects has_number
chain_state = state_after (gen_declared 9 chain nothing_declared)

chain_runs : gen_declared 9 chain nothing_declared ≡ made tt chain_state
unfolding gen_declared gen_typedefs gen_unit_effects gen_typedef gen_effect resolve gen_type
    gen_elems find_type builtins search_typedefs search_effects has_number chain_state equal
chain_runs = refl

gen_declared-TypedefSolved_example :
    All (TypedefSolved chain chain_state) chain.unit_typedefs
    × All (EffectSolved chain chain_state) chain.unit_effects
gen_declared-TypedefSolved_example = gen_declared-TypedefSolved 9 chain chain_state chain_runs

abbrev chain_rank : Bytes → ℕ
chain_rank x = if equal x (codes "A") then 2 else if equal x (codes "B") then 1 else 0

chain-IsRanked : IsRanked chain chain_rank
unfolding below below_elems ranked find_type builtins equal
chain-IsRanked = record { typedefs_below = (refl, (refl, (refl, tt))); effects_below = tt }

gen_declared-ranked_example : ¬ (gen_declared 3 chain nothing_declared ≡ spent)
unfolding equal
gen_declared-ranked_example =
    gen_declared-ranked 3 chain chain_rank chain-IsRanked
      (omega arith, (omega arith, (omega arith, tt))) tt

-- `type A = *A;`.
abbrev own : AstTypedef
own = define (codes "A") (ptr_type here (name_type (codes "A")) no_attrs)

abbrev own_unit : Surroundings
own_unit = record {
  unit_typedefs = own ∷ [];
  unit_effects = [];
  known = known_nothing;
  infers = λ e. false;
}

own-IsOwnPointer : IsOwnPointer own_unit own []
unfolding find_type builtins equal
own-IsOwnPointer = record {
  first = refl;
  range = here;
  inner = here;
  attrs = no_attrs;
  inner_attrs = no_attrs;
  points = refl;
  new_name = refl;
}

gen_declared-spent_example : gen_declared 1000 own_unit nothing_declared ≡ spent
gen_declared-spent_example = gen_declared-spent 1000 own_unit own [] own-IsOwnPointer
