-- ===== src/Gen/Keeps.antt =====
-- Steps that keep the scopes balanced, put together as the code puts them together.
use rox.Prelude.{◌≡◌, Bool, true, false, if◌then◌else◌, Option, List, ℕ}
use rox.Types.{CgType}
use rox.Lexer.Token.{Range}
use rox.Gen.Scopes.{CgScope}
use rox.Gen.Emit.{
  top, Step, Building, Instr, Trouble, pure, refuse, report, needed, read, guard, call,
  create_block, append_block, position, build, branch_on, emit_alloca, last_scope, scopes_last,
  ◌>>=◌,
}
use rox.Gen.Holds.{
  Kept_trans, Holds, holds_done, holds_refused, holds_reported, Holds-and_then, Holds-branch_on,
  Holds-guard, Holds-last_scope, Holds-needed, Holds-read, Kept,
}

-- A step that keeps the scopes, from wherever they are kept.
abbrev pub Keeps : {A : Type 0} → Step A → Type 0
Keeps m = (cs : List CgScope) (b : Building) → Kept cs b.scopes → Holds (Kept cs) (m b)

module _ {A : Type 0} where
  pub Keeps-bind :
      {B : Type 0} {m : Step A} {f : A → Step B}
      → Keeps m
      → ((a : A) → Keeps (f a))
      → Keeps (m >>= f)
  Keeps-bind h g cs b k = Holds-and_then _ (h cs b k) (λ a b' k'. g a cs b' k')

  pub Keeps-if : (c : Bool) {m n : Step A} → Keeps m → Keeps n → Keeps (if c then m else n)
  Keeps-if true h g = h
  Keeps-if false h g = g

  pub Keeps-pure : (a : A) → Keeps (pure a)
  Keeps-pure a cs b k = holds_done a b k

  pub Keeps-refuse : Keeps {A = A} refuse
  Keeps-refuse cs b k = holds_refused

  pub Keeps-report : (r : Range) (t : Trouble) → Keeps {A = A} (report r t)
  Keeps-report r t cs b k = holds_reported r t

  pub Keeps-needed : (o : Option A) → Keeps (needed o)
  Keeps-needed o cs b k = Holds-needed b k o

  pub Keeps-read : (o : Option A) → Keeps (read o)
  Keeps-read o cs b k = Holds-read b k o

  -- An operation of the interface.
  pub Keeps-call :
      (f : Building → A × Building)
      → ((b : Building) → Kept b.scopes (f b).1.scopes)
      → Keeps (call f)
  Keeps-call f h cs b k = holds_done (f b).0 (f b).1 (Kept_trans k (h b))

pub Keeps-guard : (c : Bool) → Keeps (guard c)
Keeps-guard c cs b k = Holds-guard b k c

pub Keeps-create_block : Keeps create_block
Keeps-create_block cs b k = holds_done _ _ k

pub Keeps-append_block : (n : ℕ) → Keeps (append_block n)
Keeps-append_block n cs b k = holds_done tt _ k

pub Keeps-position : (n : ℕ) → Keeps (position n)
Keeps-position n cs b k = holds_done tt _ k

pub Keeps-build : (i : Instr) → Keeps (build i)
Keeps-build i cs b k = holds_done tt _ k

pub Keeps-branch_on : (n : ℕ) → Keeps (branch_on n)
Keeps-branch_on n cs b k = Holds-branch_on b k n

pub Keeps-emit_alloca : (t : CgType) → Keeps (emit_alloca t)
Keeps-emit_alloca t cs b k = holds_done _ _ k

pub Keeps-scopes_last : Keeps scopes_last
Keeps-scopes_last cs b k = Holds-read b k (top b.scopes)

pub Keeps-last_scope :
    (f : CgScope → CgScope) → ((c : CgScope) → (f c).loop ≡ c.loop) → Keeps (last_scope f)
Keeps-last_scope f h cs b k = Holds-last_scope cs b f h k
