-- ===== src/Gen.antt =====
-- cg.h: the part of `Cg` that declares types, and runs that change it. Memory is taken never to run
-- out.
pub mod TypeGen
pub mod Resolve
pub mod Denotes
pub mod Extends
pub mod Leaves
pub mod Sorted
pub mod Made
pub mod Listed
pub mod Solves
pub mod Whole
pub mod Cycles
pub mod Asks
pub mod Ends
pub mod Below
pub mod Ranked
pub mod Terminates
pub mod Scopes
pub mod Emit
pub mod Assign
pub mod StmtGen
pub mod FnGen
pub mod Holds
pub mod Keeps
pub mod Assigned
pub mod Balanced
pub mod Functions
pub mod Lookup
pub mod Defers
pub mod Returning
pub mod Prepass
pub mod UnitGen
pub mod Declares
pub mod UnitKeeps
use rox.Prelude.{
  equal, length, get_elem?, set, take, drop, replicate, length-append, length-take, length-drop,
  length-replicate, length-set, get_elem?-set_self, get_elem?-set_ne, get_or, ==_iff, Bool-cases,
  All, ◌≢◌, zero, suc, ◌+◌, ◌-◌, ◌*◌, ◌/◌, ◌%◌, ◌^◌, ◌≤◌, ◌<◌, ◌≡◌, refl, arith, ◌⊎◌, inl, inr,
  Bool, true, false, if◌then◌else◌, Option, none, some, List, [], ◌∷◌, ◌==◌, ltb, leb, ◌&&◌, ◌||◌,
  not, ◌++◌, ◌↔◌, ℕ, ℕ_discrete, dec_lt, ap, sym,
}
use rox.Lexer.Char.{Bytes}
use rox.Lexer.Token.{Range}
use rox.Ast.{Expr, AstType}
use rox.Units.{AstTypedef, AstEffect}
use rox.Eval.{Known}
use rox.Types.{CgType}

-- What is reported, by the format of the report.
pub data Problem : Type 0 where
  undeclared not_an_extent not_atomic empty_enum no_enumerator_type not_an_enumerator : Problem

pub record Report : Type 0 where
  pub range : Range
  pub problem : Problem

-- `typedefs` and `effects` of `Cg`, the numbers of the nodes of the unit whose `m_generated` is set,
-- and the reports, the last one first.
pub record Declared : Type 0 where
  pub typedefs : List (Bytes × CgType)
  pub effects : List (Bytes × CgType)
  pub made_typedefs : List ℕ
  pub made_effects : List ℕ
  pub reports : List Report

abbrev pub nothing_declared : Declared
nothing_declared = record {
  typedefs = [];
  effects = [];
  made_typedefs = [];
  made_effects = [];
  reports = [];
}

-- The unit, the constants known, and whether `gen_type` finds a type for an expression.
pub record Surroundings : Type 0 where
  pub unit_typedefs : List AstTypedef
  pub unit_effects : List AstEffect
  pub known : Known
  pub infers : Expr → Bool

-- A result, a null result, an `operator*` of an empty `Maybe`, or no fuel left.
pub data Outcome (A : Type 0) : Type 0 where
  made : A → Declared → Outcome A
  failed : Declared → Outcome A
  broken : Outcome A
  spent : Outcome A

abbrev pub Gen : Type 0 → Type 0
Gen A = Declared → Outcome A

abbrev pub pure : {A : Type 0} → A → Gen A
pure a s = made a s

-- A null result, reported or not.
abbrev pub null : {A : Type 0} → Gen A
null s = failed s

abbrev pub error : {A : Type 0} → Range → Problem → Gen A
error r p s = failed (record s { reports = record { range = r; problem = p } ∷ s.reports })

abbrev pub or_null : {A : Type 0} → Option A → Gen A
or_null none = null
or_null (some a) = pure a

abbrev pub unwrap : {A : Type 0} → Option A → Gen A
unwrap none s = broken
unwrap (some a) s = made a s

abbrev pub after : {A B : Type 0} → Outcome A → (A → Gen B) → Outcome B
after (made a s) f = f a s
after (failed s) f = failed s
after broken f = broken
after spent f = spent

infixl 5 ◌>>=◌ ◌>>◌
abbrev pub ◌>>=◌ : {A B : Type 0} → Gen A → (A → Gen B) → Gen B
◌>>=◌ m f s = after (m s) f

abbrev pub ◌>>◌ : {B : Type 0} → Gen (Unit {0}) → Gen B → Gen B
m >> k = m >>= λ _. k

-- `if (a) { return b; }`, and what follows it otherwise.
abbrev pub tried : {A B : Type 0} → Outcome A → Gen B → Gen B → Outcome B
tried (made a s) f g = f s
tried (failed s) f g = g s
tried broken f g = broken
tried spent f g = spent

unfoldable pub find_type : List (Bytes × CgType) → Bytes → Option CgType
find_type [] name = none
find_type ((n, t) ∷ ts) name = if equal n name then some t else find_type ts name

unfoldable pub has_number : List ℕ → ℕ → Bool
has_number [] i = false
has_number (j ∷ js) i = j == i || has_number js i
