-- ===== src/Parser/Source.antt =====
-- The tokens that a parser gets from the lexer over a file, up to and with `END`.
use mathlib.Core.Option
use rox.Prelude.{
  ℕ, zero, suc, ◌+◌, ◌≤◌, ◌≡◌, true, false, List, [], ◌∷◌, Option, none, some, length,
  if◌then◌else◌, arith, Bool-cases, inl, inr,
}
use rox.Lexer.Token.{Token, is_end}
use rox.Lexer.Read.{Lexer, next, string}
use rox.Lexer.Next.{next_total}
use rox.Parser.State.{Lexed}

abbrev pub lexed : Lexer → Token → Lexed
lexed l t = record { kind = t.kind; range = t.range; text = string l t.range }

unfoldable pub source_tokens : ℕ → Lexer → Option (List Lexed)
source_tokens zero l = none
source_tokens (suc fuel) l = elim (next (suc fuel) l) [
  | none ↦ none
  | some (t, l') ↦
      let rest = Option.map (λ ts. lexed l t ∷ ts) (source_tokens fuel l') in
      if is_end t.kind then some (lexed l t ∷ []) else rest
]

-- The last token, and no other, is `END`.
abbrev pub EndsOnce : List Lexed → Type 0
EndsOnce [] = ⊥
EndsOnce (t ∷ []) = is_end t.kind ≡ true
EndsOnce (t ∷ u ∷ ts) = (is_end t.kind ≡ false) × EndsOnce (u ∷ ts)

EndsOnce-cons :
    (t : Lexed) (ts : List Lexed) → is_end t.kind ≡ false → EndsOnce ts → EndsOnce (t ∷ ts)
EndsOnce-cons t [] e h = absurd h
EndsOnce-cons t (u ∷ ts) e h = (e, h)

source_tokens-end :
    (fuel : ℕ) (l : Lexer) (t : Token) (l' : Lexer)
    → next (suc fuel) l ≡ some (t, l')
    → is_end t.kind ≡ true
    → source_tokens (suc fuel) l ≡ some (lexed l t ∷ [])
unfolding source_tokens
source_tokens-end fuel l t l' h e = ground arith

source_tokens-more :
    (fuel : ℕ) (l : Lexer) (t : Token) (l' : Lexer) {ts : List Lexed}
    → next (suc fuel) l ≡ some (t, l')
    → is_end t.kind ≡ false
    → source_tokens fuel l' ≡ some ts
    → source_tokens (suc fuel) l ≡ some (lexed l t ∷ ts)
unfolding source_tokens
source_tokens-more fuel l t l' h e k = ground arith

-- With a unit of fuel more than there are bytes left, and at least one, the tokens that the
-- lexer hands to the parser end: there is a list of them in which the last token, and no other,
-- is `END`.
pub source_tokens_total :
    (fuel : ℕ) (l : Lexer)
    → length l.bytes + 1 ≤ l.offset + fuel
    → 1 ≤ fuel
    → (ts : List Lexed) × (source_tokens fuel l ≡ some ts) × EndsOnce ts
source_tokens_total zero l h p = absurd (omega arith)
source_tokens_total (suc fuel) l h p =
    let (t, l', found, a) = next_total (suc fuel) l h p in
    elim (Bool-cases (is_end t.kind)) [
      | inl e ↦ (lexed l t ∷ [], source_tokens-end fuel l t l' found e, e)
      | inr e ↦
          let inside = a.inside e in
          let (ts, rest, ends) =
            source_tokens_total fuel l' (rw a.same (omega (arith, a.moves))) (omega arith) in
          (
            lexed l t ∷ ts,
            source_tokens-more fuel l t l' found e rest,
            EndsOnce-cons (lexed l t) ts e ends,
          )
    ]
