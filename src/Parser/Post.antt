-- ===== src/Parser/Post.antt =====
-- Postconditions of the parser's monad, with a rule for each way to build a computation.
use rox.Prelude.{ap, ◌≡◌, refl, Bool, true, false, if◌then◌else◌}
use rox.Parser.State.{silent_null, Parser, M, Result, ok, err, no_fuel, ◌>>=◌}

-- If the computation returns, what it returns and the state that it leaves are in P.
abbrev pub Post : {A : Type 0} → (A → Parser → Type 0) → Result A → Type 0
Post P (ok a s) = P a s
Post P (err _ _) = Unit
Post P silent_null = Unit
Post P no_fuel = Unit

abbrev pub Always : {A : Type 0} → (A → Parser → Type 0) → M A → Type 0
Always P m = (s : Parser) → Post P (m s)

Post-any : {A : Type 0} (r : Result A) → Post (λ _ _. Unit {0}) r
Post-any (ok a s) = tt
Post-any (err _ _) = tt
Post-any silent_null = tt
Post-any no_fuel = tt

module _ {A B : Type 0} (P : B → Parser → Type 0) where
  Post-chain :
      (Q : A → Parser → Type 0) (r : Result A) (f : A → M B)
      → Post Q r
      → ((a : A) (s : Parser) → Q a s → Post P (f a s))
      → Post P (elim r [
        | ok a s' ↦ f a s'
        | err e t ↦ err e t
        | silent_null ↦ silent_null
        | no_fuel ↦ no_fuel
      ])
  Post-chain Q (ok a s) f q k = k a s q
  Post-chain Q (err _ _) f q k = tt
  Post-chain Q silent_null f q k = tt
  Post-chain Q no_fuel f q k = tt

  pub Post-bind :
      (Q : A → Parser → Type 0) (m : M A) (f : A → M B) (s : Parser)
      → Post Q (m s)
      → ((a : A) (s' : Parser) → Q a s' → Post P (f a s'))
      → Post P ((m >>= f) s)
  unfolding ◌>>=◌
  Post-bind Q m f s q k = Post-chain Q (m s) f q k

  -- Where nothing has to be known of the first computation.
  pub Post-then :
      (m : M A) (f : A → M B) (s : Parser) → ((a : A) → Always P (f a)) → Post P ((m >>= f) s)
  Post-then m f s k = Post-bind (λ _ _. Unit {0}) m f s (Post-any (m s)) (λ a s' _. k a s')

pub Post-branch :
    {A : Type 0} (P : A → Parser → Type 0) (b : Bool) (m n : M A) (s : Parser)
    → (b ≡ true → Post P (m s))
    → (b ≡ false → Post P (n s))
    → Post P ((if b then m else n) s)
Post-branch P true m n s p q = p refl
Post-branch P false m n s p q = q refl

pub Post-if :
    {A : Type 0} (P : A → Parser → Type 0) (b : Bool) (m n : M A) (s : Parser)
    → Post P (m s)
    → Post P (n s)
    → Post P ((if b then m else n) s)
Post-if P b m n s p q = Post-branch P b m n s (λ _. p) (λ _. q)

pub Post-weaken :
    {A : Type 0} (P Q : A → Parser → Type 0) (r : Result A)
    → ((a : A) (s : Parser) → P a s → Q a s)
    → Post P r
    → Post Q r
Post-weaken P Q (ok a s) h p = h a s p
Post-weaken P Q (err _ _) h p = tt
Post-weaken P Q silent_null h p = tt
Post-weaken P Q no_fuel h p = tt

-- A computation that returns hands its result on.
pub bind-ok :
    {A B : Type 0} (m : M A) (f : A → M B) (s : Parser) {a : A} {s' : Parser}
    → m s ≡ ok a s'
    → (m >>= f) s ≡ f a s'
unfolding ◌>>=◌
bind-ok m f s e =
    ap
      (λ r. elim r [
        | ok a s' ↦ f a s'
        | err r t ↦ err r t
        | silent_null ↦ silent_null
        | no_fuel ↦ no_fuel
      ])
      e
