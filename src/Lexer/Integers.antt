-- ===== src/Lexer/Integers.antt =====
-- Decimal integer literals, in the grammar that lexer.inl gives beside LIT_INT: digits with
-- separators, and an optional suffix that names the type.
use rox.Prelude.{
  ℕ, suc, ◌+◌, ◌≡◌, ◌≢◌, refl, [], ◌∷◌, ◌++◌, true, false, ◌==◌, ◌||◌, drop, length, arith, All,
  codes, none, ◌∙◌, ap,
}
use rox.Lexer.Char.{Bytes, is_alpha, is_digit}
use rox.Lexer.Token.{Kind, lit_int}
use rox.Lexer.Scan.{scanned, peek_at, single, operator}
use rox.Lexer.Number.{decimal, mantissa, exponent, suffix, number}
use rox.Lexer.Read.{scan_long, scan}

-- `IntegerSuffix?` of lexer.inl.
pub data IntegerSuffix : Type 0 where
  absent u8 u16 u32 u64 s8 s16 s32 s64 : IntegerSuffix

abbrev pub suffix_text : IntegerSuffix → Bytes
suffix_text absent = []
suffix_text u8 = codes "_u8"
suffix_text u16 = codes "_u16"
suffix_text u32 = codes "_u32"
suffix_text u64 = codes "_u64"
suffix_text s8 = codes "_s8"
suffix_text s16 = codes "_s16"
suffix_text s32 = codes "_s32"
suffix_text s64 = codes "_s64"

-- What must not follow a literal with no suffix: a byte that would carry it on.
abbrev pub EndsAt : IntegerSuffix → Bytes → Type 0
EndsAt absent rest =
    (is_digit (peek_at 0 rest) ≡ false)
    × (peek_at 0 rest ≢ b'\'')
    × (peek_at 0 rest ≢ b'.')
    × (peek_at 0 rest ≢ b'e')
    × (peek_at 0 rest ≢ b'_')
EndsAt _ rest = Unit

abbrev pub IsDigitOrMark : ℕ → Type 0
IsDigitOrMark c = (is_digit c || c == b'\'') ≡ true

decimal-run :
    (ds tail : Bytes)
    → All IsDigitOrMark ds
    → is_digit (peek_at 0 tail) ≡ false
    → peek_at 0 tail ≢ b'\''
    → peek_at 0 tail ≢ b'.'
    → decimal false lit_int (ds ++ tail) ≡ (lit_int, length ds)
unfolding decimal is_digit
decimal-run [] [] h p q r = refl
decimal-run [] (c ∷ tail) h p q r = ground arith
decimal-run (c ∷ ds) tail h p q r = ground (arith, decimal-run ds tail h.1 p q r)

suffix-text :
    (t : IntegerSuffix) (rest : Bytes)
    → EndsAt t rest
    → suffix lit_int (suffix_text t ++ rest) ≡ (lit_int, length (suffix_text t))
unfolding suffix
suffix-text absent rest h = ground arith
suffix-text u8 rest h = refl
suffix-text _ rest h = refl

-- The bytes behind the digits end the decimal loop and start no exponent.
record Closes (tail : Bytes) : Type 0 where
  no_digit : is_digit (peek_at 0 tail) ≡ false
  no_mark : peek_at 0 tail ≢ b'\''
  no_point : peek_at 0 tail ≢ b'.'
  no_exponent : peek_at 0 tail ≢ b'e'

suffix_text-Closes :
    (t : IntegerSuffix) (rest : Bytes) → EndsAt t rest → Closes (suffix_text t ++ rest)
unfolding is_digit
suffix_text-Closes absent rest h = ground arith
suffix_text-Closes u8 rest h = ground arith
suffix_text-Closes _ rest h = ground arith

drop-append : (n d : ℕ) (ds tail : Bytes) → n ≡ suc (length ds) → drop n (d ∷ (ds ++ tail)) ≡ tail
drop-append n d [] tail h = rw h
drop-append n d (c ∷ ds) tail h = rw h (drop-append (suc (length ds)) d ds tail refl)

number-parts :
    (bs : Bytes) (k k' k'' : Kind) (a b c : ℕ)
    → mantissa (peek_at 0 bs == b'0') (drop 1 bs) ≡ (k, a)
    → exponent k (drop (1 + a) bs) ≡ (k', b)
    → suffix k' (drop (1 + a + b) bs) ≡ (k'', c)
    → number bs ≡ scanned k'' 0 (1 + a + b + c) (1 + a + b + c)
unfolding number
number-parts bs k k' k'' a b c m e s = rw (m, e, s)

exponent-none : (k : Kind) (tail : Bytes) → peek_at 0 tail ≢ b'e' → exponent k tail ≡ (k, 0)
unfolding exponent
exponent-none k tail h = ground arith

mantissa-decimal :
    (d : ℕ) (bs : Bytes) → d ≢ b'0' → mantissa (d == b'0') bs ≡ decimal false lit_int bs
unfolding mantissa
mantissa-decimal d bs h = ground arith

number-integer :
    (d : ℕ) (ds rest : Bytes) (t : IntegerSuffix)
    → d ≢ b'0'
    → All IsDigitOrMark ds
    → EndsAt t rest
    → number (d ∷ (ds ++ (suffix_text t ++ rest)))
      ≡ scanned lit_int 0
          (1 + length ds + 0 + length (suffix_text t))
          (1 + length ds + 0 + length (suffix_text t))
number-integer d ds rest t nz h e =
    let tail = suffix_text t ++ rest in
    let c = suffix_text-Closes t rest e in
    number-parts (d ∷ (ds ++ tail)) lit_int lit_int lit_int (length ds) 0 (length (suffix_text t))
      (mantissa-decimal d (ds ++ tail) nz ∙ decimal-run ds tail h c.no_digit c.no_mark c.no_point)
      (rw (drop-append (1 + length ds) d ds tail (omega arith))
        (exponent-none lit_int tail c.no_exponent))
      (rw (drop-append (1 + length ds + 0) d ds tail (omega arith)) (suffix-text t rest e))

single-digit : (c : ℕ) → is_digit c ≡ true → single c ≡ none
unfolding single is_digit
single-digit c h = ground arith

operator-digit : (c d e : ℕ) → is_digit c ≡ true → operator c d e ≡ none
unfolding operator is_digit
operator-digit c d e h = ground arith

scan-digit : (c : ℕ) (bs : Bytes) → is_digit c ≡ true → scan (c ∷ bs) ≡ number (c ∷ bs)
unfolding scan scan_long is_digit is_alpha
scan-digit c bs h =
    ground (arith, single-digit c h, operator-digit c (peek_at 0 bs) (peek_at 1 bs) h)

-- A digit other than 0, digits and separators in any order, separators in a row and at the end
-- too, and one of the integer suffixes or none, if nothing behind a literal with no suffix would
-- carry it on, are one LIT_INT token that covers them all.
pub scan-integer :
    (d : ℕ) (ds rest : Bytes) (t : IntegerSuffix)
    → is_digit d ≡ true
    → d ≢ b'0'
    → All IsDigitOrMark ds
    → EndsAt t rest
    → let n = 1 + length ds + length (suffix_text t) in
      scan (d ∷ (ds ++ (suffix_text t ++ rest))) ≡ scanned lit_int 0 n n
scan-integer d ds rest t i nz h e =
    let sum : 1 + length ds + 0 + length (suffix_text t) ≡ 1 + length ds + length (suffix_text t) =
      omega arith in
    scan-digit d (ds ++ (suffix_text t ++ rest)) i
    ∙ number-integer d ds rest t nz h e
    ∙ ap (λ n. scanned lit_int 0 n n) sum
