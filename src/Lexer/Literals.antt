-- ===== src/Lexer/Literals.antt =====
-- String literals, identifiers and integer literals: a text of the documented form is read whole.
use rox.Prelude.{
  some, ◌∙◌, ℕ, suc, ◌+◌, ◌≡◌, ◌≢◌, refl, [], ◌∷◌, ◌++◌, Bool, true, false, ◌==◌, ◌||◌, take,
  length, arith, ap, All, none,
}
use rox.Lexer.Char.{Bytes, eof, is_alpha}
use rox.Lexer.Token.{ident, lit_str}
use rox.Lexer.Scan.{
  is_word, keyword, scanned, peek_at, single, operator, run_length, string_length, word,
}
use rox.Lexer.Spelling.{spelling}
use rox.Prelude.{codes, equal_iff}
use rox.Lexer.Read.{scan_long, scan}

-- The text between the quotes of a string: a backslash takes the next byte with it.
pub data Quoted : Bytes → Type 0 where
  stop : Quoted []
  plain : (c : ℕ) {bs : Bytes} → c ≢ b'"' → c ≢ b'\\' → c ≢ eof → Quoted bs → Quoted (c ∷ bs)
  escape : (c : ℕ) {bs : Bytes} → Quoted bs → Quoted (b'\\' ∷ c ∷ bs)

string_length-plain :
    (c : ℕ) (bs : Bytes)
    → c ≢ b'"'
    → c ≢ b'\\'
    → c ≢ eof
    → string_length (c ∷ bs) ≡ suc (string_length bs)
unfolding string_length
string_length-plain c [] p q r = ground arith
string_length-plain c (d ∷ bs) p q r = ground arith

string_length-quote : (rest : Bytes) → string_length (b'"' ∷ rest) ≡ 0
unfolding string_length
string_length-quote [] = refl
string_length-quote (d ∷ rest) = refl

string_length-escape :
    (c : ℕ) (bs : Bytes) → string_length (b'\\' ∷ c ∷ bs) ≡ suc (suc (string_length bs))
unfolding string_length
string_length-escape c bs = refl

string_length-Quoted :
    {bs : Bytes} (rest : Bytes) → Quoted bs → string_length (bs ++ (b'"' ∷ rest)) ≡ length bs
string_length-Quoted rest stop = string_length-quote rest
string_length-Quoted rest (plain c {bs} p q r b) =
    omega (arith, string_length-plain c (bs ++ (b'"' ∷ rest)) p q r, string_length-Quoted rest b)
string_length-Quoted rest (escape c {bs} b) =
    omega (arith, string_length-escape c (bs ++ (b'"' ∷ rest)), string_length-Quoted rest b)

-- A quote, a text without bare quotes and with no byte 0xff but behind a backslash, which takes
-- the next byte with it, and a quote are one LIT_STR token, quotes included, whatever follows.
pub scan-string :
    {bs : Bytes} (rest : Bytes)
    → Quoted bs
    → scan (b'"' ∷ (bs ++ (b'"' ∷ rest))) ≡ scanned lit_str 0 (length bs + 2) (length bs + 2)
unfolding scan scan_long single operator
scan-string rest b = ground (arith, string_length-Quoted rest b)

run_length-All :
    (p : ℕ → Bool) (bs rest : Bytes)
    → All (λ c. (p c ≡ true) × (c ≢ eof)) bs
    → p (peek_at 0 rest) ≡ false
    → run_length p (bs ++ rest) ≡ length bs
unfolding run_length
run_length-All p [] [] h ends = refl
run_length-All p [] (c ∷ rest) h ends = ground arith
run_length-All p (c ∷ bs) rest h ends = ground (arith, run_length-All p bs rest h.1 ends)

take-append : (bs rest : Bytes) → take (length bs) (bs ++ rest) ≡ bs
take-append [] rest = refl
take-append (c ∷ bs) rest = ap (◌∷◌ c) (take-append bs rest)

one-add : (n : ℕ) → 1 + n ≡ suc n
one-add n = omega arith

single-alpha : (c : ℕ) → (is_alpha c || c == b'_') ≡ true → single c ≡ none
unfolding single is_alpha
single-alpha c h = ground arith

operator-alpha : (c d e : ℕ) → (is_alpha c || c == b'_') ≡ true → operator c d e ≡ none
unfolding operator is_alpha
operator-alpha c d e h = ground arith

scan-alpha : (c : ℕ) (bs : Bytes) → (is_alpha c || c == b'_') ≡ true → scan (c ∷ bs) ≡ word (c ∷ bs)
unfolding scan scan_long is_alpha
scan-alpha c bs h =
    ground (arith, single-alpha c h, operator-alpha c (peek_at 0 bs) (peek_at 1 bs) h)

take-word : (c : ℕ) (w rest : Bytes) → take (1 + length w) (c ∷ (w ++ rest)) ≡ c ∷ w
take-word c w rest = rw one-add (ap (◌∷◌ c) (take-append w rest))

word-run :
    (c : ℕ) (w rest : Bytes)
    → All (λ d. (is_word d ≡ true) × (d ≢ eof)) w
    → is_word (peek_at 0 rest) ≡ false
    → word (c ∷ (w ++ rest))
      ≡ scanned (keyword (1 + length w) (c ∷ w)) 0 (1 + length w) (1 + length w)
unfolding word
word-run c w rest h ends = rw (run_length-All is_word w rest h ends, take-word c w rest)

-- A letter or underscore, then letters, digits and underscores, with no such byte behind them,
-- are one token that covers them all, of the kind that `keyword` gives for the text.
pub scan-word :
    (c : ℕ) (w rest : Bytes)
    → (is_alpha c || c == b'_') ≡ true
    → All (λ d. (is_word d ≡ true) × (d ≢ eof)) w
    → is_word (peek_at 0 rest) ≡ false
    → scan (c ∷ (w ++ rest))
      ≡ scanned (keyword (1 + length w) (c ∷ w)) 0 (1 + length w) (1 + length w)
scan-word c w rest h k ends = scan-alpha c (w ++ rest) h ∙ word-run c w rest k ends

-- A text that `keyword` takes for something else than an identifier is the spelling of that kind
-- in lexer.inl.
pub keyword-spelling :
    (w : Bytes) → keyword (length w) w ≢ ident → spelling (keyword (length w) w) ≡ some w
unfolding keyword
keyword-spelling w h = ground (
  arith,
  equal_iff w (codes "fn"),
  equal_iff w (codes "if"),
  equal_iff w (codes "as"),
  equal_iff w (codes "of"),
  equal_iff w (codes "is"),
  equal_iff w (codes "let"),
  equal_iff w (codes "new"),
  equal_iff w (codes "for"),
  equal_iff w (codes "else"),
  equal_iff w (codes "type"),
  equal_iff w (codes "true"),
  equal_iff w (codes "defer"),
  equal_iff w (codes "false"),
  equal_iff w (codes "break"),
  equal_iff w (codes "using"),
  equal_iff w (codes "return"),
  equal_iff w (codes "effect"),
  equal_iff w (codes "module"),
  equal_iff w (codes "import"),
  equal_iff w (codes "continue"),
)
