-- ===== src/Parser/Ends.antt =====
-- Computations of the parser that do not run out of fuel: rules for each way to build one.
use rox.Prelude.{
  length, sym, ap, ◌∙◌, ◌==◌, ℕ, ◌+◌, ◌≤◌, ◌<◌, ◌≡◌, refl, Bool, true, false, List, [], ◌∷◌,
  if◌then◌else◌, arith,
}
use rox.Lexer.Token.{Kind, end, is_end, code}
use rox.Parser.State.{
  silent_null, Parser, Lexed, M, Result, ok, err, no_fuel, ◌>>=◌, head_token, rest_tokens, peek,
  next, expect, is,
}
use rox.Parser.Precedence.{at_kind}
use Prim.Native.String.{String}

unfoldable weight : Kind → ℕ
unfolding is_end
weight k = if is_end k then 0 else 1

-- The tokens ahead that are not `END`.
unfoldable pub live : List Lexed → ℕ
unfolding weight
live [] = 0
live (t ∷ ts) = weight t.kind + live ts

pub live-length : (ts : List Lexed) → live ts ≤ length ts
unfolding live weight
live-length [] = omega arith
live-length (t ∷ ts) = let rest = live-length ts in ground arith

-- It returns with P, or gives null, with a report of an error or with none.
abbrev pub Ends : {A : Type 0} → (A → Parser → Type 0) → Result A → Type 0
Ends P (ok a s) = P a s
Ends P (err _ _) = Unit
Ends P silent_null = Unit
Ends P no_fuel = ⊥

-- No more tokens, or fewer tokens, are ahead than there were.
abbrev pub Down : {A : Type 0} → Parser → A → Parser → Type 0
Down s a s' = live s'.ahead ≤ live s.ahead

abbrev pub Drop : {A : Type 0} → Parser → A → Parser → Type 0
Drop s a s' = live s'.ahead < live s.ahead

pub Ends-weaken :
    {A : Type 0} (P Q : A → Parser → Type 0) (r : Result A)
    → ((a : A) (s : Parser) → P a s → Q a s)
    → Ends P r
    → Ends Q r
Ends-weaken P Q (ok a s) h p = h a s p
Ends-weaken P Q (err _ _) h p = tt
Ends-weaken P Q silent_null h p = tt
Ends-weaken P Q no_fuel h p = p

pub Ends-Down :
    {A : Type 0} (s s1 : Parser) (r : Result A)
    → live s1.ahead ≤ live s.ahead
    → Ends (Down s1) r
    → Ends (Down s) r
Ends-Down s s1 r h p = Ends-weaken (Down s1) (Down s) r (λ a s' k. omega arith) p

pub Ends-Drop :
    {A : Type 0} (s s1 : Parser) (r : Result A)
    → live s1.ahead < live s.ahead
    → Ends (Down s1) r
    → Ends (Drop s) r
Ends-Drop s s1 r h p = Ends-weaken (Down s1) (Drop s) r (λ a s' k. omega arith) p

module _ {A B : Type 0} (P : B → Parser → Type 0) where
  Ends-chain :
      (Q : A → Parser → Type 0) (r : Result A) (f : A → M B)
      → Ends Q r
      → ((a : A) (s : Parser) → Q a s → Ends P (f a s))
      → Ends P (elim r [
        | ok a s' ↦ f a s'
        | err e t ↦ err e t
        | silent_null ↦ silent_null
        | no_fuel ↦ no_fuel
      ])
  Ends-chain Q (ok a s) f q k = k a s q
  Ends-chain Q (err _ _) f q k = tt
  Ends-chain Q silent_null f q k = tt
  Ends-chain Q no_fuel f q k = q

  pub Ends-bind :
      (Q : A → Parser → Type 0) (m : M A) (f : A → M B) (s : Parser)
      → Ends Q (m s)
      → ((a : A) (s' : Parser) → Q a s' → Ends P (f a s'))
      → Ends P ((m >>= f) s)
  unfolding ◌>>=◌
  Ends-bind Q m f s q k = Ends-chain Q (m s) f q k

pub Ends-branch :
    {A : Type 0} (P : A → Parser → Type 0) (b : Bool) (m n : M A) (s : Parser)
    → (b ≡ true → Ends P (m s))
    → (b ≡ false → Ends P (n s))
    → Ends P ((if b then m else n) s)
Ends-branch P true m n s p q = p refl
Ends-branch P false m n s p q = q refl

live-rest_tokens : (ts : List Lexed) → live (rest_tokens ts) ≤ live ts
unfolding live rest_tokens
live-rest_tokens [] = omega arith
live-rest_tokens (t ∷ []) = ground arith
live-rest_tokens (t ∷ u ∷ ts) = ground arith

live-rest_tokens_drop :
    (ts : List Lexed) → is_end (head_token ts).kind ≡ false → live (rest_tokens ts) < live ts
unfolding live rest_tokens head_token is_end
live-rest_tokens_drop [] h = absurd (cc)
live-rest_tokens_drop (t ∷ []) h = ground arith
live-rest_tokens_drop (t ∷ u ∷ ts) h = ground arith

-- What `peek` says of the tokens ahead.
abbrev pub IsPeeked : Parser → Lexed → Parser → Type 0
IsPeeked s t s' = (t.kind ≡ at_kind s') × (live s'.ahead ≡ live s.ahead)

pub peek-IsPeeked : (s : Parser) → Ends (IsPeeked s) (peek s)
unfolding peek
peek-IsPeeked s = (refl, refl)

pub next-Down : (s : Parser) → Ends (Down s) (next s)
unfolding next
next-Down s = live-rest_tokens s.ahead

pub next-Drop : (s : Parser) → is_end (at_kind s) ≡ false → Ends (Drop s) (next s)
unfolding next
next-Drop s h = live-rest_tokens_drop s.ahead h

is_end-code : (k : Kind) → is_end k ≡ (code k == code end)
unfolding is_end code
is_end-code end = refl
is_end-code _ = refl

-- A token of a kind other than `END` is not `END`.
pub is-live : (k : Kind) (t : Lexed) → is_end k ≡ false → is k t ≡ true → is_end t.kind ≡ false
is-live k t h e =
    let same : code t.kind ≡ code k = ground arith in
    is_end-code t.kind ∙ ap (λ n. n == code end) same ∙ sym (is_end-code k) ∙ h

pub expect-Drop :
    (k : Kind) (text : String) (s : Parser) → is_end k ≡ false → Ends (Drop s) (expect k text s)
unfolding expect
expect-Drop k text s h = Ends-bind (Drop s) (IsPeeked s) _ _ s (peek-IsPeeked s) λ t s1 p.
    Ends-branch (Drop s) (is k t) _ _ s1
      (λ e.
        Ends-weaken (Drop s1) (Drop s) _ (λ a s2 x. omega (arith, p.1))
          (next-Drop s1 (ap is_end (sym p.0) ∙ is-live k t h e)))
      (λ e. tt)

-- A look at the next token, and a test of its kind, with the token taken if it is of that kind.
module _ {A : Type 0} (P : A → Parser → Type 0) (k : Kind) (live_kind : is_end k ≡ false) where
  pub Ends-when :
      (m n : M A) (s : Parser)
      → ((s' : Parser) → is_end (at_kind s') ≡ false → live s'.ahead ≡ live s.ahead → Ends P (m s'))
      → ((s' : Parser) → live s'.ahead ≡ live s.ahead → Ends P (n s'))
      → Ends P ((peek >>= λ t. if is k t then m else n) s)
  Ends-when m n s p q = Ends-bind P (IsPeeked s) _ _ s (peek-IsPeeked s) λ t s1 h.
      Ends-branch P (is k t) _ _ s1 (λ e. p s1 (ap is_end (sym h.0) ∙ is-live k t live_kind e) h.1)
        (λ e. q s1 h.1)

  pub Ends-take :
      (m n : M A) (s : Parser)
      → ((s' : Parser) → live s'.ahead < live s.ahead → Ends P (m s'))
      → ((s' : Parser) → live s'.ahead ≡ live s.ahead → Ends P (n s'))
      → Ends P ((peek >>= λ t. if is k t then (next >>= λ _. m) else n) s)
  Ends-take m n s p q =
      Ends-when (next >>= λ _. m) n s
        (λ s1 e h. Ends-bind P (Drop s1) _ _ s1 (next-Drop s1 e) λ t s2 d. p s2 (omega arith)) q
