-- ===== src/Gen/Declares.antt =====
-- A whole unit: every function is declared before functions are generated, and each one starts with
-- empty scopes.
use rox.Gen.Emit.{FnTraits}
use mathlib.Core.Path.{subst}
use rox.Prelude.{
  length, ==_iff, Bool-cases, zero, suc, ◌+◌, ◌<◌, ◌≡◌, refl, arith, inl, inr, true, false, Option,
  none, some, List, [], ◌∷◌, ◌==◌, ◌++◌, ℕ, sym,
}
use rox.Ast.{Attrs, no_attrs, more_attrs}
use rox.Units.{AstFn}
use rox.Lexer.Char.{Bytes}
use rox.Lexer.Token.{Range}
use rox.Types.{CgType, types, nth}
use rox.Types.Make.{make_fn, addrof, make_ptr}
use rox.Const.{Const}
use rox.Eval.{Known, eval}
use rox.Gen.{equal, Gen, Surroundings, Outcome, Declared, made, failed, broken, spent, after}
use rox.Gen.TypeGen.{gen_type, gen_args, gen_effects}
use rox.Gen.Scopes.{Var, Value}
use rox.Gen.Emit.{
  Step, Building, Trouble, Expressions, Emitted, done, refused, exhausted, unsound, reported,
  asserted, and_then,
}
use rox.Gen.Assign.{FnVar, integral, fn_addr, deref}
use rox.Gen.FnGen.{lifted}
use rox.Gen.Prepass.{
  boolean, prepass, prepass_fns, export_of, fn_traits, gen_fn_type, fn_ref, with_alignment,
  redzone_name, alignstack_name,
}
use rox.Gen.UnitGen.{library_fns}
use rox.Gen.Defers.{Returns}

-- What holds of the result of a step.
data Gives {A : Type 0} (P : A → Type 0) : Emitted A → Type 0 where
  gives_done : (a : A) (b : Building) → P a → Gives P (done a b)
  gives_reported : (r : Range) (t : Trouble) → Gives P (reported r t)
  gives_refused : Gives P refused
  gives_unsound : Gives P unsound
  gives_asserted : Gives P asserted
  gives_exhausted : Gives P exhausted

Gives-and_then :
    {A B : Type 0} {P : A → Type 0} {Q : B → Type 0} {o : Emitted A} (f : A → Step B)
    → Gives P o
    → ((a : A) (b : Building) → P a → Gives Q (f a b))
    → Gives Q (and_then o f)
Gives-and_then f (gives_done a b p) g = g a b p
Gives-and_then f (gives_reported r t) g = gives_reported r t
Gives-and_then f gives_refused g = gives_refused
Gives-and_then f gives_unsound g = gives_unsound
Gives-and_then f gives_asserted g = gives_asserted
Gives-and_then f gives_exhausted g = gives_exhausted

any-Gives : {A : Type 0} (o : Emitted A) → Gives (λ a. Unit {0}) o
any-Gives (done a b) = gives_done a b tt
any-Gives (reported r t) = gives_reported r t
any-Gives refused = gives_refused
any-Gives unsound = gives_unsound
any-Gives asserted = gives_asserted
any-Gives exhausted = gives_exhausted

Gives-result : {A : Type 0} {P : A → Type 0} {a : A} {b : Building} → Gives P (done a b) → P a
Gives-result (gives_done _ _ p) = p

-- A boolean constant counts as true, whatever it is.
boolean-true : (o : Option Const) (b : Building) → Gives (λ v. v ≡ true) (boolean o b)
unfolding boolean
boolean-true none b = gives_unsound
boolean-true (some (Const.bool_const q k v)) b = gives_done true b refl
boolean-true (some (Const.no_const _)) b = gives_reported _ _
boolean-true (some (Const.int_const _ _ _)) b = gives_reported _ _
boolean-true (some (Const.flt_const _ _ _)) b = gives_reported _ _
boolean-true (some (Const.string_const _ _)) b = gives_reported _ _
boolean-true (some (Const.tuple_const _ _ _ _)) b = gives_reported _ _
boolean-true (some (Const.array_const _ _ _)) b = gives_reported _ _

traits-noredzone :
    (k : Known) (as_ : Attrs) (t : FnTraits) (b : Building)
    → Gives (λ t'. t'.noredzone ≡ t.noredzone) (fn_traits k as_ t b)
unfolding fn_traits
traits-noredzone k no_attrs t b = gives_done t b refl
traits-noredzone k (more_attrs r name e rest) t b = elim (Bool-cases (equal name redzone_name)) [
  | inl x ↦
      rw x (
        Gives-and_then _ (boolean-true (eval k e) b)
          (λ v b' h. rw h (traits-noredzone k rest t b')))
  | inr x ↦ rw x (elim (Bool-cases (equal name alignstack_name)) [
    | inl y ↦ rw y (
        Gives-and_then _ (any-Gives (integral (eval k e) b))
          (λ n b' h. traits-noredzone k rest (with_alignment n t) b'))
    | inr y ↦ rw y (traits-noredzone k rest t b)
  ])
]

-- Where the loop of `AstFn::prepass` over the attributes returns, it has not changed whether the
-- function has a red zone, whatever the attributes are: `redzone(false)` does nothing.
pub fn_traits-noredzone :
    (k : Known) (as_ : Attrs) (t t' : FnTraits) (b b' : Building)
    → fn_traits k as_ t b ≡ done t' b'
    → t'.noredzone ≡ t.noredzone
fn_traits-noredzone k as_ t t' b b' h =
    Gives-result (subst (Gives (λ s. s.noredzone ≡ t.noredzone)) h (traits-noredzone k as_ t b))

-- The type of a function, whatever its parts are.
abbrev IsFnType : CgType → Type 0
IsFnType f = (t : CgType) × (nth (types f) 3 ≡ some t)

abbrev Yields : Outcome CgType → Type 0
Yields (made t s) = IsFnType t
Yields _ = Unit {0}

Yields-after :
    {A : Type 0} (o : Outcome A) (f : A → Gen CgType)
    → ((a : A) (s : Declared) → Yields (f a s))
    → Yields (after o f)
Yields-after (made a s) f h = h a s
Yields-after (failed s) f h = tt
Yields-after broken f h = tt
Yields-after spent f h = tt

lifted-IsFnType : (o : Outcome CgType) (b : Building) → Yields o → Gives IsFnType (lifted o b)
lifted-IsFnType (made t s) b y = gives_done t _ y
lifted-IsFnType (failed s) b y = gives_refused
lifted-IsFnType broken b y = gives_unsound
lifted-IsFnType spent b y = gives_exhausted

-- An address of a function, and what it points to.
abbrev IsFnAddr : Option Value → Type 0
IsFnAddr o =
    (a : Value) × (f : CgType) × (t : CgType) × (o ≡ some a)
    × (deref a.type ≡ some f)
    × (nth (types f) 3 ≡ some t)

first_found :
    (v : FnVar) (vs : List FnVar) (i : ℕ) → v.node ≡ some i → fn_addr (v ∷ vs) i ≡ some v.addr
unfolding fn_addr
first_found v vs i e = rw (e, (==_iff i i).1 refl) refl

next_found :
    (v : FnVar) (vs : List FnVar) (i k : ℕ)
    → v.node ≡ some i
    → (i == k) ≡ false
    → fn_addr (v ∷ vs) k ≡ fn_addr vs k
unfolding fn_addr
next_found v vs i k e n = rw (e, n) refl

one_more_found :
    (v : FnVar) (vs : List FnVar) (i n : ℕ)
    → v.node ≡ some i
    → IsFnAddr (some v.addr)
    → ((j : ℕ) → j < n → IsFnAddr (fn_addr vs (i + 1 + j)))
    → (j : ℕ) → j < suc n
    → IsFnAddr (fn_addr (v ∷ vs) (i + j))
one_more_found v vs i n e a h zero l =
    let z : i ≡ i + 0 = omega arith in
    subst (λ k. IsFnAddr (fn_addr (v ∷ vs) k)) z (subst IsFnAddr (sym (first_found v vs i e)) a)
one_more_found v vs i n e a h (suc j) l =
    let z : i + 1 + j ≡ i + suc j = omega arith in
    let other : (i == (i + suc j)) ≡ false = ground arith in
    subst IsFnAddr (sym (next_found v vs i (i + suc j) e other))
      (subst (λ k. IsFnAddr (fn_addr vs k)) z (h j (omega arith)))

module _ (look : Range → Bytes → Gen CgType) (env : Surroundings) where
  gen_fn_type-Yields : (f : AstFn) (s : Declared) → Yields (gen_fn_type look env f s)
  unfolding gen_fn_type make_fn
  gen_fn_type-Yields f s = Yields-after (gen_args look env f.objs s) _ (λ o s1.
      Yields-after (gen_args look env f.args s1) _ (λ a s2.
        Yields-after (gen_effects look env f.effects s2) _
          (λ e s3. Yields-after (gen_type look env f.ret none s3) _ (λ t s4. (t, refl)))))

  abbrev Entry : ℕ → FnVar × FnTraits → Type 0
  Entry i v =
      (v.0.node ≡ some i)
      × (f : CgType) × (t : CgType) × (deref v.0.addr.type ≡ some f)
      × (nth (types f) 3 ≡ some t)

  prepass-Entry :
      (xs : List Var) (p : Bytes) (i : ℕ) (f : AstFn) (b : Building)
      → Gives (Entry i) (prepass look env xs p i f b)
  unfolding prepass addrof make_ptr
  prepass-Entry xs p i f b =
      Gives-and_then _
        (lifted-IsFnType (gen_fn_type look env f b.declared) b (gen_fn_type-Yields f b.declared))
        (λ t b1 h. Gives-and_then _ (any-Gives (export_of env.known f.attrs b1)) (λ x b2 h2.
          Gives-and_then _ (any-Gives (fn_ref xs f.name b2)) (λ ref b3 h3.
            Gives-and_then _ (any-Gives (fn_traits env.known f.attrs _ b3))
              (λ s b4 h4. gives_done _ _ (refl, t, h.0, refl, h.1)))))

  abbrev AllFound : ℕ → ℕ → List FnVar → Type 0
  AllFound i n vs = (j : ℕ) → j < n → IsFnAddr (fn_addr vs (i + j))

  prepass_fns-AllFound :
      (xs : List Var) (p : Bytes) (i : ℕ) (fs : List AstFn) (b : Building)
      → Gives (AllFound i (length fs)) (prepass_fns look env xs p i fs b)
  unfolding prepass_fns
  prepass_fns-AllFound xs p i [] b = gives_done [] b (λ j l. absurd (omega arith))
  prepass_fns-AllFound xs p i (f ∷ fs) b = Gives-and_then _ (prepass-Entry xs p i f b) (λ v b1 e.
      Gives-and_then _ (prepass_fns-AllFound xs p (i + 1) fs b1) (λ vs b2 h.
        gives_done _ b2
          (one_more_found v.0 vs i (length fs) e.0 (v.0.addr, e.1, e.2, refl, e.3, e.4) h)))

-- Where the prepass over the functions of a unit returns, behind the library functions that are
-- listed first, every function of the unit is found under its number, with the address of a
-- function type that has a type to return, so that neither `AstFn::codegen` nor a return
-- statement in it fails to find that type.
pub prepass_fns-Returns :
    (look : Range → Bytes → Gen CgType) (env : Surroundings) (xs : List Var) (p : Bytes)
    (fs : List AstFn) (vs : List FnVar) (on : Expressions) (b b' : Building)
    → prepass_fns look env xs p 0 fs b ≡ done vs b'
    → (i : ℕ) → i < length fs
    → Returns (record { known = env.known; fns = library_fns ++ vs; on = on }) i
unfolding fn_addr
prepass_fns-Returns look env xs p fs vs on b b' h i l =
    let all = Gives-result (
      subst (Gives (AllFound look env 0 (length fs))) h
        (prepass_fns-AllFound look env xs p 0 fs b)) in
    let z : 0 + i ≡ i = omega arith in
    let (a, f, t, e1, e2, e3) = subst (λ k. IsFnAddr (fn_addr vs k)) z (all i l) in
    record { addr = a; fn_type = f; ret_type = t; found = e1; is_fn = e2; gives = e3 }
