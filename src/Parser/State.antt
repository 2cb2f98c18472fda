-- ===== src/Parser/State.antt =====
-- parser.h: the parser's state, `next`, `peek` and the ways to fail.
-- A null node is passed on by every caller. Where an error was reported it is an `err` with the
-- range and text of that report, and otherwise `silent_null`. The text is a format, whose arguments are left out. Memory is
-- taken never to run out.
use Prim.Native.String.{String}
use rox.Prelude.{ℕ, ◌+◌, Bool, List, [], ◌∷◌, ◌==◌, if◌then◌else◌, ltb, ◌-◌}
use rox.Lexer.Char.{Bytes}
use rox.Lexer.Token.{Kind, end, Range, fin, is_end, code}

-- A token with `m_lexer.string(token.range)`.
pub record Lexed : Type 0 where
  pub kind : Kind
  pub range : Range
  pub text : Bytes

abbrev pub lexeme : Kind → Range → Bytes → Lexed
lexeme k r x = record { kind = k; range = r; text = x }

-- The tokens that `m_lexer` still has, with the peeked one in front; the last is `END`. `this` is
-- the range of `m_this_token`; `errno` is whether the C library has set `errno` to ERANGE.
pub record Parser : Type 0 where
  pub ahead : List Lexed
  pub this : Range
  pub in_defer : Bool
  pub errno : Bool

pub data Result (A : Type 0) : Type 0 where
  ok : A → Parser → Result A
  err : Range → String → Result A
  silent_null : Result A
  no_fuel : Result A

abbrev pub M : Type 0 → Type 0
M A = Parser → Result A

infixl 5 ◌>>=◌ ◌>>◌
unfoldable pub ◌>>=◌ : {A B : Type 0} → M A → (A → M B) → M B
◌>>=◌ m f s = elim (m s) [
  | ok a s' ↦ f a s'
  | err r t ↦ err r t
  | silent_null ↦ silent_null
  | no_fuel ↦ no_fuel
]

abbrev pub ◌>>◌ : {A B : Type 0} → M A → M B → M B
m >> k = m >>= λ _. k

abbrev pub pure : {A : Type 0} → A → M A
pure a s = ok a s

-- `ERROR(range, ...)` and `ERROR(...)`.
abbrev pub fail_at : {A : Type 0} → Range → String → M A
fail_at r text s = err r text

abbrev pub fail : {A : Type 0} → String → M A
fail text s = err s.this text

-- A null node with no report.
abbrev pub refuse : {A : Type 0} → M A
refuse s = silent_null

abbrev pub end_token : Lexed
end_token = record { kind = end; range = record { offset = 0; length = 0 }; text = [] }

-- The token that `next` yields. Past its end the lexer yields `END` at ever higher offsets.
unfoldable pub head_token : List Lexed → Lexed
head_token [] = end_token
head_token (t ∷ ts) = t

abbrev past : Lexed → Lexed
past t = record t { range = record { offset = t.range.offset + 1; length = 0 } }

unfoldable pub rest_tokens : List Lexed → List Lexed
rest_tokens [] = []
rest_tokens (t ∷ []) = if is_end t.kind then past t ∷ [] else []
rest_tokens (t ∷ u ∷ ts) = u ∷ ts

-- Both set `m_this_token`; a peeked token is the next one.
unfoldable pub peek : M Lexed
peek s = let t = head_token s.ahead in ok t (record s { this = t.range })

unfoldable pub next : M Lexed
next s =
    let t = head_token s.ahead in ok t (record s { this = t.range; ahead = rest_tokens s.ahead })

abbrev pub is : Kind → Lexed → Bool
is k t = code t.kind == code k

-- `if (peek().kind != k) return ERROR(text); next();`
unfoldable pub expect : Kind → String → M Lexed
expect k text = do t ← peek; if is k t then next else fail text

-- `Range::include` of util/numeric.inl, with `min` and `max` from there.
abbrev min_of : ℕ → ℕ → ℕ
min_of a b = if ltb a b then a else b

abbrev max_of : ℕ → ℕ → ℕ
max_of a b = if ltb b a then a else b

unfoldable pub include : Range → Range → Range
include r q =
    let off = min_of r.offset q.offset in
    record { offset = off; length = max_of (fin r) (fin q) - off }
