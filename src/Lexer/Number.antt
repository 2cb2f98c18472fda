-- ===== src/Lexer/Number.antt =====
-- lexer.cpp, the numeric literals of `Lexer::read`: each part yields the kind so far and the number
-- of calls of `fwd`.
use rox.Prelude.{
  ℕ, suc, ◌+◌, Bool, true, false, not, ◌&&◌, ◌||◌, [], ◌∷◌, drop, ◌==◌, if◌then◌else◌,
}
use rox.Lexer.Char.{Bytes, eof, is_digit, is_bin, is_hex}
use rox.Lexer.Token.{Kind, lit_int, lit_flt}
use rox.Lexer.Scan.{Scan, scanned, peek_at, run_length}

-- `while (peek() != -1 && (p(peek()) || s)) fwd(), s = peek() == '\'';`
unfoldable pub radix_length : (ℕ → Bool) → Bool → Bytes → ℕ
radix_length p s [] = 0
radix_length p s (c ∷ cs) =
    if not (c == eof) && (p c || s) then suc (radix_length p (peek_at 0 cs == b'\'') cs) else 0

-- The loop at `L_dec`, where `dotted` is `d != 0`.
unfoldable pub decimal : Bool → Kind → Bytes → Kind × ℕ
decimal dotted k [] = (k, 0)
decimal dotted k (c ∷ cs) =
    let same = decimal dotted k cs in
    let point = decimal true lit_flt cs in
    if c == eof
    then (k, 0)
    else if is_digit c
    then (same.0, suc same.1)
    else if c == b'\''
    then (same.0, suc same.1)
    else if not dotted && c == b'.'
    then (point.0, suc point.1)
    else (k, 0)

-- Behind the first digit, which was '0' if z.
unfoldable pub mantissa : Bool → Bytes → Kind × ℕ
mantissa true bs =
    let c = peek_at 0 bs in
    if c == b'x'
    then (lit_int, 1 + radix_length is_hex false (drop 1 bs))
    else if c == b'b'
    then (lit_int, 1 + radix_length is_bin false (drop 1 bs))
    else if c == b'.'
    then (let (k, n) = decimal true lit_flt (drop 1 bs) in (k, 1 + n))
    else (lit_int, 0)
mantissa false bs = decimal false lit_int bs

unfoldable pub exponent : Kind → Bytes → Kind × ℕ
exponent k bs =
    let c = peek_at 1 bs in
    if peek_at 0 bs == b'e'
    then (if c == b'-' || c == b'+'
        then (lit_flt, 2 + run_length is_digit (drop 2 bs))
        else (lit_flt, 1 + run_length is_digit (drop 1 bs)))
    else (k, 0)

-- The steps over one of the digit pairs, when the first is there.
abbrev pub pair : ℕ → ℕ → ℕ
pair d e = if d == e then 2 else 1

unfoldable pub suffix : Kind → Bytes → Kind × ℕ
suffix k bs =
    let t = peek_at 1 bs in
    let c = peek_at 2 bs in
    let d = peek_at 3 bs in
    if peek_at 0 bs == b'_'
    then (if t == b'u' || t == b's'
        then (if c == b'8'
            then (k, 3)
            else if c == b'1'
            then (k, 2 + pair d b'6')
            else if c == b'3'
            then (k, 2 + pair d b'2')
            else if c == b'6'
            then (k, 2 + pair d b'4')
            else (k, 2))
        else if t == b'f'
        then (if c == b'3'
            then (lit_flt, 2 + pair d b'2')
            else if c == b'6'
            then (lit_flt, 2 + pair d b'4')
            else (lit_flt, 2))
        else (k, 1))
    else (k, 0)

unfoldable pub number : Bytes → Scan
number bs =
    let (k, a) = mantissa (peek_at 0 bs == b'0') (drop 1 bs) in
    let (k', b) = exponent k (drop (1 + a) bs) in
    let (k'', c) = suffix k' (drop (1 + a + b) bs) in let l = 1 + a + b + c in scanned k'' 0 l l
