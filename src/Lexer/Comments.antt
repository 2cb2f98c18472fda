-- ===== src/Lexer/Comments.antt =====
-- Comments: `/* */` nests, as README.md says, and a line comment ends before its newline.
use rox.Prelude.{
  ℕ, suc, ◌+◌, ◌≡◌, ◌≢◌, refl, ◌⊎◌, [], ◌∷◌, ◌++◌, not, ◌==◌, length, length-append, All, arith,
}
use mathlib.Core.List.{append_assoc}
use rox.Lexer.Char.{Bytes, eof}
use rox.Lexer.Token.{comment}
use rox.Lexer.Scan.{scanned, peek_at, single, operator, run_length, block_length, slash}
use rox.Lexer.Read.{scan_long, scan}

-- A byte that neither opens nor closes a comment, nor reads inner the end of the data.
abbrev pub IsPlain : ℕ → Type 0
IsPlain c = (c ≢ b'/') × (c ≢ b'*') × (c ≢ eof)

-- The text between `/*` and its `*/`: what it opens it closes. Its last byte is not a slash that is on
-- its own, which would open a comment with the star behind it.
pub data Body : Bytes → Type 0 where
  stop : Body []
  plain : (c : ℕ) {bs : Bytes} → IsPlain c → Body bs → Body (c ∷ bs)
  slash_on : (d : ℕ) {bs : Bytes} → d ≢ b'*' → Body (d ∷ bs) → Body (b'/' ∷ d ∷ bs)
  star_on : (d : ℕ) {bs : Bytes} → d ≢ b'/' → Body (d ∷ bs) → Body (b'*' ∷ d ∷ bs)
  last_star : Body (b'*' ∷ [])
  nested :
      {inner bs : Bytes} → Body inner → Body bs → Body (b'/' ∷ b'*' ∷ (inner ++ (b'*' ∷ b'/' ∷ bs)))

block_length-plain :
    (i c : ℕ) (bs : Bytes)
    → IsPlain c
    → block_length (suc i) (c ∷ bs) ≡ suc (block_length (suc i) bs)
unfolding block_length
block_length-plain i c [] p = ground arith
block_length-plain i c (d ∷ bs) p = ground arith

block_length-slash :
    (i d : ℕ) (bs : Bytes)
    → d ≢ b'*'
    → block_length (suc i) (b'/' ∷ d ∷ bs) ≡ suc (block_length (suc i) (d ∷ bs))
unfolding block_length
block_length-slash i d bs p = ground (arith, p)

block_length-star :
    (i d : ℕ) (bs : Bytes)
    → d ≢ b'/'
    → block_length (suc i) (b'*' ∷ d ∷ bs) ≡ suc (block_length (suc i) (d ∷ bs))
unfolding block_length
block_length-star i d bs p = ground (arith, p)

block_length-open :
    (i : ℕ) (bs : Bytes)
    → block_length (suc i) (b'/' ∷ b'*' ∷ bs) ≡ suc (suc (block_length (suc (suc i)) bs))
unfolding block_length
block_length-open i bs = refl

block_length-close :
    (i : ℕ) (bs : Bytes) → block_length (suc i) (b'*' ∷ b'/' ∷ bs) ≡ suc (suc (block_length i bs))
unfolding block_length
block_length-close i bs = refl

-- In a comment of any depth, a body in front of a star is passed over and leaves the depth as it was.
block_length-Body :
    {bs : Bytes} (i : ℕ) (rest : Bytes)
    → Body bs
    → block_length (suc i) (bs ++ (b'*' ∷ rest)) ≡ length bs + block_length (suc i) (b'*' ∷ rest)
block_length-Body i rest stop = omega arith
block_length-Body i rest (plain c {bs} p b) =
    omega (arith, block_length-plain i c (bs ++ (b'*' ∷ rest)) p, block_length-Body i rest b)
block_length-Body i rest (slash_on d {bs} h b) =
    omega (arith, block_length-slash i d (bs ++ (b'*' ∷ rest)) h, block_length-Body i rest b)
block_length-Body i rest (star_on d {bs} h b) =
    omega (arith, block_length-star i d (bs ++ (b'*' ∷ rest)) h, block_length-Body i rest b)
block_length-Body i rest last_star = omega (arith, block_length-star i b'*' rest (λ e. omega arith))
block_length-Body i rest (nested {inner} {bs} a b) =
    rw (append_assoc inner (b'*' ∷ b'/' ∷ bs) (b'*' ∷ rest)) (
      omega (
        arith,
        block_length-open i (inner ++ (b'*' ∷ b'/' ∷ (bs ++ (b'*' ∷ rest)))),
        block_length-Body (suc i) (b'/' ∷ (bs ++ (b'*' ∷ rest))) a,
        block_length-close (suc i) (bs ++ (b'*' ∷ rest)),
        block_length-Body i rest b,
        length-append inner (b'*' ∷ b'/' ∷ bs),
      ))

-- A block comment, with no byte 0xff in it, whose text closes each comment that it opens and no
-- other, and does not end in a slash that would open one with the star behind it, is one COMMENT
-- token that ends behind its own `*/`, whatever follows.
pub scan-block :
    {bs : Bytes} (rest : Bytes)
    → Body bs
    → scan (b'/' ∷ b'*' ∷ (bs ++ (b'*' ∷ b'/' ∷ rest)))
      ≡ scanned comment 0 (length bs + 4) (length bs + 4)
unfolding scan scan_long single operator slash block_length
scan-block {bs} rest b = ground (arith, block_length-Body 0 (b'/' ∷ rest) b)

run_length-line :
    (bs rest : Bytes)
    → All (λ c. (c ≢ b'\n') × (c ≢ eof)) bs
    → (peek_at 0 rest ≡ b'\n') ⊎ (peek_at 0 rest ≡ eof)
    → run_length (λ c. not (c == b'\n')) (bs ++ rest) ≡ length bs
unfolding run_length
run_length-line [] [] h ends = refl
run_length-line [] (c ∷ rest) h ends = ground arith
run_length-line (c ∷ bs) rest h ends = ground (arith, run_length-line bs rest h.1 ends)

-- A line comment is one COMMENT token that ends before its newline, or at the end of the data.
pub scan-line :
    (bs rest : Bytes)
    → All (λ c. (c ≢ b'\n') × (c ≢ eof)) bs
    → (peek_at 0 rest ≡ b'\n') ⊎ (peek_at 0 rest ≡ eof)
    → scan (b'/' ∷ b'/' ∷ (bs ++ rest)) ≡ scanned comment 0 (length bs + 2) (length bs + 2)
unfolding scan scan_long single operator slash
scan-line bs rest h ends = ground (arith, run_length-line bs rest h ends)
