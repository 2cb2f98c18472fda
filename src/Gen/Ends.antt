-- ===== src/Gen/Ends.antt =====
-- Types whose names are ranked: code generation of each ends.
use rox.Prelude.{true}
use rox.Prelude.{◌≡◌}
use rox.Gen.Asks.{asks_nothing, enums_ask_nothing, asked_nothing}
use rox.Gen.TypeGen.{asked, ask}
use rox.Types.Same.Whole.{both}
use rox.Prelude.{[]}
use rox.Prelude.{Bool-cases, inl, inr, Option, none, some, ℕ}
use rox.Ast.{Expr, Enums, no_enums, enumerator, init_enumerator, expr_range}
use rox.Lexer.Char.{Bytes}
use rox.Lexer.Token.{Range}
use rox.Types.{CgType}
use rox.Const.{Const, to_uint}
use rox.Eval.{eval}
use rox.Gen.{
  Declared, Outcome, Surroundings, Gen, made, failed, broken, after, tried, or_null, unwrap,
}
use rox.Gen.TypeGen.{
  extent_value, gen_atomic, gen_enum, gen_enums, gen_init, init_value, next_value, can_be_atomic,
}
use rox.Gen.Leaves.{Leaves, IsSolved}

-- A run that does not run out of fuel.
pub data Ends {A : Type 0} : Outcome A → Type 0 where
  ends_made : (a : A) (s : Declared) → Ends (made a s)
  ends_failed : (s : Declared) → Ends (failed s)
  ends_broken : Ends broken

pub Ends-after :
    {env : Surroundings} {A B : Type 0} {P : A → Declared → Type 0} {s : Declared} {o : Outcome A}
    (f : A → Gen B)
    → Leaves env P s o
    → Ends o
    → ((a : A) (t : Declared) → IsSolved env t → P a t → Ends (f a t))
    → Ends (after o f)
Ends-after f (Leaves.leaves_made a t e k p) h g = g a t k p
Ends-after f (Leaves.leaves_failed t e k) h g = ends_failed t
Ends-after f Leaves.leaves_broken h g = ends_broken
Ends-after f Leaves.leaves_spent h g = elim h [ ]

pub Ends-tried :
    {env : Surroundings} {A B : Type 0} {P : A → Declared → Type 0} {s : Declared} {o : Outcome A}
    (f g : Gen B)
    → Leaves env P s o
    → Ends o
    → ((a : A) (t : Declared) → IsSolved env t → P a t → Ends (f t))
    → ((t : Declared) → IsSolved env t → Ends (g t))
    → Ends (tried o f g)
Ends-tried f g (Leaves.leaves_made a t e k p) h then_ok else_ok = then_ok a t k p
Ends-tried f g (Leaves.leaves_failed t e k) h then_ok else_ok = else_ok t k
Ends-tried f g Leaves.leaves_broken h then_ok else_ok = ends_broken
Ends-tried f g Leaves.leaves_spent h then_ok else_ok = elim h [ ]

-- One run and then another that ends wherever it starts.
pub Ends-then :
    {A B : Type 0} {o : Outcome A} (f : A → Gen B)
    → Ends o
    → ((a : A) (t : Declared) → Ends (f a t))
    → Ends (after o f)
Ends-then f (ends_made a s) g = g a s
Ends-then f (ends_failed s) g = ends_failed s
Ends-then f ends_broken g = ends_broken

or_null-Ends : {A : Type 0} (o : Option A) (s : Declared) → Ends (or_null o s)
or_null-Ends none s = ends_failed s
or_null-Ends (some a) s = ends_made a s

unwrap-Ends : {A : Type 0} (o : Option A) (s : Declared) → Ends (unwrap o s)
unwrap-Ends none s = ends_broken
unwrap-Ends (some a) s = ends_made a s

module _ (env : Surroundings) where
  pub extent_value-Ends :
      (r : Range) (o : Option Const) (s : Declared) → Ends (extent_value env r o s)
  extent_value-Ends r none s = ends_failed _
  extent_value-Ends r (some (Const.int_const q k n)) s =
      or_null-Ends (to_uint env.known.of_float 64 (Const.int_const q k n)) s
  extent_value-Ends r (some (Const.no_const _)) s = ends_failed _
  extent_value-Ends r (some (Const.bool_const _ _ _)) s = ends_failed _
  extent_value-Ends r (some (Const.flt_const _ _ _)) s = ends_failed _
  extent_value-Ends r (some (Const.string_const _ _)) s = ends_failed _
  extent_value-Ends r (some (Const.tuple_const _ _ _ _)) s = ends_failed _
  extent_value-Ends r (some (Const.array_const _ _ _)) s = ends_failed _

  init_value-Ends : (r : Range) (o : Option Const) (s : Declared) → Ends (init_value env r o s)
  init_value-Ends r none s = ends_failed _
  init_value-Ends r (some c) s = unwrap-Ends (to_uint env.known.of_float 128 c) s

  module _ (look : Range → Bytes → Gen CgType) where
    gen_init-Ends :
        (e : Expr) (s : Declared) → asked env.known e ≡ [] → Ends (gen_init look env e s)
    unfolding gen_init ask
    gen_init-Ends e s a = elim (Bool-cases (env.infers e)) [
      | inl h ↦ rw (h, a) (init_value-Ends (expr_range e) (eval env.known e) s)
      | inr h ↦ rw h (ends_failed _)
    ]

    gen_enums-Ends :
        (r : Range) (es : Enums) (v : ℕ) (s : Declared)
        → enums_ask_nothing es ≡ true
        → Ends (gen_enums look env r es v s)
    unfolding gen_enums enums_ask_nothing
    gen_enums-Ends r no_enums v s h = ends_made _ s
    gen_enums-Ends r (enumerator n es) v s h =
        Ends-then _ (gen_enums-Ends r es (next_value v) s h) (λ fs t. ends_made _ t)
    gen_enums-Ends r (init_enumerator n e es) v s h =
        let (a, b) = both (asks_nothing e) (enums_ask_nothing es) h in
        Ends-then _ (gen_init-Ends e s (asked_nothing env.known e a))
          (λ w t. Ends-then _ (gen_enums-Ends r es (next_value w) t b) (λ fs t'. ends_made _ t'))

    pub gen_enum-Ends :
        (r : Range) (es : Enums) (n : Option Bytes) (s : Declared)
        → enums_ask_nothing es ≡ true
        → Ends (gen_enum look env r es n s)
    unfolding gen_enum
    gen_enum-Ends r no_enums n s h = ends_failed _
    gen_enum-Ends r (enumerator x es) n s h =
        Ends-then _ (gen_enums-Ends r (enumerator x es) 0 s h) (λ fs t. or_null-Ends _ t)
    gen_enum-Ends r (init_enumerator x e es) n s h =
        Ends-then _ (gen_enums-Ends r (init_enumerator x e es) 0 s h) (λ fs t. or_null-Ends _ t)

  pub gen_atomic-Ends :
      (r : Range) (u : CgType) (n : Option Bytes) (s : Declared) → Ends (gen_atomic r u n s)
  gen_atomic-Ends r u n s = elim (Bool-cases (can_be_atomic u)) [
    | inl h ↦ rw h (ends_made _ s)
    | inr h ↦ rw h (ends_failed _)
  ]
