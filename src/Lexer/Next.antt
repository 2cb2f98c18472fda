-- ===== src/Lexer/Next.antt =====
-- `next` and a whole file: the loop over comments ends, and so does the client's loop up to `END`.
use rox.Prelude.{
  ℕ, zero, suc, ◌+◌, ◌≤◌, ◌<◌, ◌≡◌, refl, inl, inr, List, [], ◌∷◌, some, drop, length, arith, true,
  false, Bool-cases, sym, ◌∙◌,
}
use mathlib.Core.Bool.{false≢true}
use native.Mathlib.Decide.{dec_le}
use rox.Lexer.Char.{Bytes}
use rox.Lexer.Token.{Kind, end, is_end, is_comment, Token}
use rox.Lexer.Scan.{run_length}
use rox.Lexer.Read.{Lexer, scan, skip, string, read, next, tokens, lex}
use rox.Lexer.Bounds.{read-progress}

drop_past : (n : ℕ) (bs : Bytes) → length bs ≤ n → drop n bs ≡ []
drop_past zero [] h = refl
drop_past zero (c ∷ cs) h = absurd (omega arith)
drop_past (suc n) [] h = refl
drop_past (suc n) (c ∷ cs) h = drop_past n cs (omega arith)

-- At the end of the data `read` yields `END`.
pub read_at_end : (l : Lexer) → length l.bytes ≤ l.offset → (read l).0.kind ≡ end
unfolding read skip run_length scan
read_at_end l h = rw (drop_past l.offset l.bytes h, drop_past (l.offset + 0) l.bytes (omega arith))

-- What a call of `next` promises: a token that is no comment, the offset further on, and `END` if
-- it was called at the end of the data.
pub record Advances (l : Lexer) (t : Token) (l' : Lexer) : Type 0 where
  pub no_comment : is_comment t.kind ≡ false
  pub moves : l.offset < l'.offset
  pub same : l'.bytes ≡ l.bytes
  pub inside : is_end t.kind ≡ false → l.offset < length l.bytes

read-inside : (l : Lexer) → is_end (read l).0.kind ≡ false → l.offset < length l.bytes
unfolding is_end
read-inside l h = elim (dec_le (length l.bytes) l.offset) [
  | yes p ↦ absurd (false≢true (sym h ∙ rw (read_at_end l p)))
  | no p ↦ omega arith
]

read-bytes : (l : Lexer) → (read l).1.bytes ≡ l.bytes
unfolding read
read-bytes l = refl

end-no_comment : (k : Kind) → is_comment k ≡ true → is_end k ≡ false
unfolding is_comment is_end
end-no_comment k h = ground arith

Advances-skip :
    (l : Lexer) (t : Token) (l' : Lexer)
    → is_comment (read l).0.kind ≡ true
    → Advances (read l).1 t l'
    → Advances l t l'
Advances-skip l t l' h a = record {
  no_comment = a.no_comment;
  moves = omega (arith, a.moves, read-progress l);
  same = a.same ∙ read-bytes l;
  inside = λ e. read-inside l (end-no_comment _ h);
}

tokens-end :
    (fuel : ℕ) (l : Lexer) (t : Token) (l' : Lexer)
    → next (suc fuel) l ≡ some (t, l')
    → is_end t.kind ≡ true
    → tokens (suc fuel) l ≡ some []
unfolding tokens
tokens-end fuel l t l' h e = ground arith

tokens-more :
    (fuel : ℕ) (l : Lexer) (t : Token) (l' : Lexer) {ts : List (Kind × Bytes)}
    → next (suc fuel) l ≡ some (t, l')
    → is_end t.kind ≡ false
    → tokens fuel l' ≡ some ts
    → tokens (suc fuel) l ≡ some ((t.kind, string l t.range) ∷ ts)
unfolding tokens
tokens-more fuel l t l' h e k = ground arith

-- With one unit of fuel more than there are bytes left, and at least one, `next` returns a token
-- that is no comment, moves the offset on, leaves the data alone, and returns `END` when it was
-- called at the end of the data.
pub next_total :
    (fuel : ℕ) (l : Lexer)
    → length l.bytes + 1 ≤ l.offset + fuel
    → 1 ≤ fuel
    → (t : Token) × (l' : Lexer) × (next fuel l ≡ some (t, l')) × Advances l t l'
unfolding next
next_total zero l h p = absurd (omega arith)
next_total (suc fuel) l h p = elim (Bool-cases (is_comment (read l).0.kind)) [
  | inl e ↦
      let inside = read-inside l (end-no_comment _ e) in
      let (t, l', found, a) =
        next_total fuel (read l).1 (rw (read-bytes l) (omega (arith, read-progress l)))
          (omega arith) in
      (t, l', rw e found, Advances-skip l t l' e a)
  | inr e ↦ (
    (read l).0,
    (read l).1,
    rw e,
    record { no_comment = e; moves = read-progress l; same = read-bytes l; inside = read-inside l },
  )
]

-- So the client's loop reads the whole file.
pub tokens_total :
    (fuel : ℕ) (l : Lexer)
    → length l.bytes + 1 ≤ l.offset + fuel
    → 1 ≤ fuel
    → (ts : List (Kind × Bytes)) × (tokens fuel l ≡ some ts)
tokens_total zero l h p = absurd (omega arith)
tokens_total (suc fuel) l h p =
    let (t, l', found, a) = next_total (suc fuel) l h p in
    elim (Bool-cases (is_end t.kind)) [
      | inl e ↦ ([], tokens-end fuel l t l' found e)
      | inr e ↦
          let inside = a.inside e in
          let (ts, rest) =
            tokens_total fuel l' (rw a.same (omega (arith, a.moves))) (omega arith) in
          (_, tokens-more fuel l t l' found e rest)
    ]

-- Reading a whole file token by token up to `END` ends for every byte string: with one unit of
-- fuel more than there are bytes, `lex` returns its tokens.
pub lex_total : (bs : Bytes) → (ts : List (Kind × Bytes)) × (lex bs ≡ some ts)
unfolding lex
lex_total bs = tokens_total (length bs + 1) _ (omega arith) (omega arith)
