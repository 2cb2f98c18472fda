-- ===== src/Gen/Holds.antt =====
-- What code generation does to the scopes, step by step.
use rox.Const.{Const}
use rox.Prelude.{◌∙◌}
use rox.Prelude.{◌≡◌, refl, Bool, true, false, if◌then◌else◌, Option, none, some, List, [], ◌∷◌, ℕ}
use rox.Gen.Scopes.{CgScope, Value}
use rox.Ast.{Expr}
use rox.Lexer.Token.{Range}
use rox.Stmt.{StoreOp}
use rox.Types.{CgType}
use rox.Gen.Emit.{
  Emitted, Building, Expressions, Step, Instr, Trouble, reported, refused, unsound, exhausted, done,
  and_then, needed, read, guard, branch_on, terminated, drop_scope, change, pop_scope, last_scope,
}

-- The scopes below the innermost one are as they were, and so is its loop.
pub data Kept : List CgScope → List CgScope → Type 0 where
  kept_none : Kept [] []
  kept_top : (c c' : CgScope) (cs : List CgScope) → c'.loop ≡ c.loop → Kept (c ∷ cs) (c' ∷ cs)

pub Kept_refl : (cs : List CgScope) → Kept cs cs
Kept_refl [] = kept_none
Kept_refl (c ∷ cs) = kept_top c c cs refl

pub Kept_trans : {cs ds es : List CgScope} → Kept cs ds → Kept ds es → Kept cs es
Kept_trans kept_none kept_none = kept_none
Kept_trans (kept_top c c' cs p) (kept_top _ d _ q) = kept_top c d cs (q ∙ p)

-- The operations on expressions change no scope but the tests, variables and the like of the
-- innermost one.
pub record IsQuiet (on : Expressions) : Type 0 where
  pub gen_value :
      (e : Expr) (t : Option CgType) (b : Building) → Kept b.scopes (on.gen_value e t b).1.scopes
  pub gen_addr : (e : Expr) (b : Building) → Kept b.scopes (on.gen_addr e b).1.scopes
  pub gen_type :
      (e : Expr) (t : Option CgType) (b : Building) → Kept b.scopes (on.gen_type e t b).1.scopes
  pub store : (a v : Value) (b : Building) → Kept b.scopes (on.store a v b).1.scopes
  pub load : (a : Value) (b : Building) → Kept b.scopes (on.load a b).1.scopes
  pub value_at : (v : Value) (i : ℕ) (b : Building) → Kept b.scopes (on.value_at v i b).1.scopes
  pub field_addr : (v : Value) (i : ℕ) (b : Building) → Kept b.scopes (on.field_addr v i b).1.scopes
  pub const_value :
      (c : Const) (t : CgType) (b : Building) → Kept b.scopes (on.const_value c t b).1.scopes
  pub zero_value : (t : CgType) (b : Building) → Kept b.scopes (on.zero_value t b).1.scopes
  pub arithmetic :
      (o : StoreOp) (a v : Value) (r : Range) (b : Building)
      → Kept b.scopes (on.arithmetic o a v r b).1.scopes

-- Of a step: what holds of the scopes where it is done; no assertion fails.
pub data Holds {A : Type 0} (P : List CgScope → Type 0) : Emitted A → Type 0 where
  holds_done : (a : A) (b : Building) → P b.scopes → Holds P (done a b)
  holds_reported : (r : Range) (t : Trouble) → Holds P (reported r t)
  holds_refused : Holds P refused
  holds_unsound : Holds P unsound
  holds_exhausted : Holds P exhausted

pub Holds-and_then :
    {A B : Type 0} {P Q : List CgScope → Type 0} {o : Emitted A} (f : A → Step B)
    → Holds P o
    → ((a : A) (b : Building) → P b.scopes → Holds Q (f a b))
    → Holds Q (and_then o f)
Holds-and_then f (holds_done a b p) g = g a b p
Holds-and_then f (holds_reported r t) g = holds_reported r t
Holds-and_then f holds_refused g = holds_refused
Holds-and_then f holds_unsound g = holds_unsound
Holds-and_then f holds_exhausted g = holds_exhausted

module _ {P : List CgScope → Type 0} (b : Building) (p : P b.scopes) where
  pub Holds-needed : {A : Type 0} (o : Option A) → Holds P (needed o b)
  Holds-needed none = holds_refused
  Holds-needed (some a) = holds_done a b p

  pub Holds-read : {A : Type 0} (o : Option A) → Holds P (read o b)
  Holds-read none = holds_unsound
  Holds-read (some a) = holds_done a b p

  pub Holds-guard : (c : Bool) → Holds P (guard c b)
  Holds-guard true = holds_done tt b p
  Holds-guard false = holds_refused

  pub Holds-branch_on : (n : ℕ) → Holds P (branch_on n b)
  Holds-branch_on n = go (terminated b.code b.insert)
    where
      go :
          (c : Bool)
          → Holds P (
              if c
              then done tt b
              else done tt (record b { code = (b.insert, Instr.br n) ∷ b.code }))
      go true = holds_done tt b p
      go false = holds_done tt _ p

-- The scope that was pushed is taken away.
pub Holds-pop_scope :
    {P : List CgScope → Type 0} (b : Building) (c : CgScope) (cs : List CgScope)
    → Kept (c ∷ cs) b.scopes
    → P cs
    → Holds P (pop_scope b)
Holds-pop_scope {P = P} b c cs k p = go b.scopes k
  where
    go : (ds : List CgScope) → Kept (c ∷ cs) ds → Holds P (drop_scope b ds)
    go _ (kept_top _ d _ q) = holds_done tt _ p

-- A change of the innermost scope that leaves its loop alone.
pub Holds-last_scope :
    (cs : List CgScope) (b : Building) (f : CgScope → CgScope)
    → ((c : CgScope) → (f c).loop ≡ c.loop)
    → Kept cs b.scopes
    → Holds (Kept cs) (last_scope f b)
Holds-last_scope cs b f h k = go cs b.scopes k
  where
    go : (es ds : List CgScope) → Kept es ds → Holds (Kept es) (change b f ds)
    go _ _ kept_none = holds_unsound
    go _ _ (kept_top c d ds q) = holds_done tt _ (kept_top c (f d) ds (h d ∙ q))

-- A change of any kind of a scope that was pushed.
abbrev pub Above : List CgScope → List CgScope → Type 0
Above cs ds = (c : CgScope) × (ds ≡ c ∷ cs)

pub Holds-Above :
    (c : CgScope) (cs : List CgScope) (b : Building) (f : CgScope → CgScope)
    → Kept (c ∷ cs) b.scopes
    → Holds (Above cs) (last_scope f b)
Holds-Above c cs b f k = go b.scopes k
  where
    go : (ds : List CgScope) → Kept (c ∷ cs) ds → Holds (Above cs) (change b f ds)
    go _ (kept_top _ d _ q) = holds_done tt _ (f d, refl)
