-- ===== src/Lexer/Bounds.antt =====
-- Where `read` leaves the offset, and which bytes a token's range covers.
use rox.Prelude.{◌*◌}
use rox.Prelude.{
  Option, ℕ, ◌+◌, ◌≤◌, ◌<◌, ◌≡◌, refl, inl, inr, [], ◌∷◌, Bool, true, false, take, ◌==◌, some, drop,
  arith, Bool-cases, Option-cases,
}
use mathlib.Core.Path.{subst}
use rox.Prelude.{if_rule}
use rox.Lexer.Scan.{
  after_less, after_less, after_less, after_less, after_less, after_less, after_less, after_less,
  after_plus, after_minus, after_star, after_bar, after_amp, after_dot, after_bang, after_eq,
  after_less, after_greater,
}
use rox.Prelude.{none, some}
use rox.Lexer.Char.{Bytes, eof}
use rox.Lexer.Token.{Kind, end, neq, arrow, pluseq, minuseq, stareq, lit_int, lit_flt, fin}
use rox.Lexer.Scan.{
  Scan, scanned, peek_at, single, operator, slash, word, keyword, run_length, is_word,
}
use rox.Lexer.Number.{number, mantissa, exponent, suffix, decimal}
use rox.Lexer.Read.{Lexer, scan_long, scan, skip, read}

-- By how much a token's range ends behind the last byte that `read` consumed: the five operators
-- whose range is built wrongly.
abbrev pub overrun : Kind → ℕ
overrun pluseq = 1
overrun minuseq = 1
overrun stareq = 1
overrun arrow = 1
overrun neq = 1
overrun _ = 0

-- `END` consumes a step that its empty range does not cover.
abbrev pub uncovered : Kind → ℕ
uncovered end = 1
uncovered _ = 0

record Fits (s : Scan) : Type 0 where
  covers : s.start + s.width + uncovered s.kind ≡ s.steps + overrun s.kind
  moves : 1 ≤ s.steps
  near : s.start < s.steps
  blank : uncovered s.kind * s.width ≡ 0

abbrev Plain : Kind → Type 0
Plain k = (overrun k ≡ 0) × (uncovered k ≡ 0)

no_blank : (k : Kind) (w : ℕ) → Plain k → uncovered k * w ≡ 0
no_blank k w h = rw h.1 (omega arith)

keyword-Plain : (l : ℕ) (s : Bytes) → Plain (keyword l s)
unfolding keyword
keyword-Plain l s = ground arith

word-Fits : (bs : Bytes) → Fits (word bs)
unfolding word
word-Fits bs =
    let l = 1 + run_length is_word (drop 1 bs) in
    let k = keyword-Plain l (take l bs) in
    record { covers = omega arith; moves = omega arith; near = omega arith; blank = no_blank _ _ k }

decimal-Plain : (dotted : Bool) (k : Kind) (bs : Bytes) → Plain k → Plain (decimal dotted k bs).0
unfolding decimal
decimal-Plain dotted k [] h = h
decimal-Plain dotted k (c ∷ cs) h =
    ground (arith, decimal-Plain dotted k cs h, decimal-Plain true lit_flt cs (refl, refl))

mantissa-Plain : (z : Bool) (bs : Bytes) → Plain (mantissa z bs).0
unfolding mantissa
mantissa-Plain true bs = ground (arith, decimal-Plain true lit_flt (drop 1 bs) (refl, refl))
mantissa-Plain false bs = decimal-Plain false lit_int bs (refl, refl)

exponent-Plain : (k : Kind) (bs : Bytes) → Plain k → Plain (exponent k bs).0
unfolding exponent
exponent-Plain k bs h = ground arith

suffix-Plain : (k : Kind) (bs : Bytes) → Plain k → Plain (suffix k bs).0
unfolding suffix
suffix-Plain k bs h = ground arith

number-Fits : (bs : Bytes) → Fits (number bs)
unfolding number
number-Fits bs =
    let m = mantissa (peek_at 0 bs == b'0') (drop 1 bs) in
    let e = exponent m.0 (drop (1 + m.1) bs) in
    let k = suffix-Plain e.0 (drop (1 + m.1 + e.1) bs) (
      exponent-Plain m.0 (drop (1 + m.1) bs) (mantissa-Plain (peek_at 0 bs == b'0') (drop 1 bs))) in
    record { covers = omega arith; moves = omega arith; near = omega arith; blank = no_blank _ _ k }

slash-Fits : (bs : Bytes) → Fits (slash bs)
unfolding slash
slash-Fits bs = ground arith

scan_long-Fits : (bs : Bytes) → Fits (scan_long bs)
unfolding scan_long
scan_long-Fits bs = ground (arith, slash-Fits (drop 1 bs), word-Fits bs, number-Fits bs)

single-Plain : (c : ℕ) {k : Kind} → single c ≡ some k → Plain k
unfolding single
single-Plain c h = ground arith

after_plus-Fits : (d : ℕ) → Fits (after_plus d)
unfolding after_plus
after_plus-Fits d = ground arith

after_minus-Fits : (d : ℕ) → Fits (after_minus d)
unfolding after_minus
after_minus-Fits d = ground arith

after_star-Fits : (d : ℕ) → Fits (after_star d)
unfolding after_star
after_star-Fits d = ground arith

after_bar-Fits : (d : ℕ) → Fits (after_bar d)
unfolding after_bar
after_bar-Fits d = ground arith

after_amp-Fits : (d : ℕ) → Fits (after_amp d)
unfolding after_amp
after_amp-Fits d = ground arith

after_dot-Fits : (d e : ℕ) → Fits (after_dot d e)
unfolding after_dot
after_dot-Fits d e = ground arith

after_bang-Fits : (d : ℕ) → Fits (after_bang d)
unfolding after_bang
after_bang-Fits d = ground arith

after_eq-Fits : (d : ℕ) → Fits (after_eq d)
unfolding after_eq
after_eq-Fits d = ground arith

after_less-Fits : (d : ℕ) → Fits (after_less d)
unfolding after_less
after_less-Fits d = ground arith

after_greater-Fits : (d : ℕ) → Fits (after_greater d)
unfolding after_greater
after_greater-Fits d = ground arith

abbrev FitsAny : Option Scan → Type 0
FitsAny none = Unit
FitsAny (some s) = Fits s

operator-FitsAny : (c d e : ℕ) → FitsAny (operator c d e)
unfolding operator
operator-FitsAny c d e = if_rule FitsAny (c == b'+') (after_plus-Fits d) (
    if_rule FitsAny (c == b'-') (after_minus-Fits d) (
      if_rule FitsAny (c == b'*') (after_star-Fits d) (
        if_rule FitsAny (c == b'|') (after_bar-Fits d) (
          if_rule FitsAny (c == b'&') (after_amp-Fits d) (
            if_rule FitsAny (c == b'.') (after_dot-Fits d e) (
              if_rule FitsAny (c == b'!') (after_bang-Fits d) (
                if_rule FitsAny (c == b'=') (after_eq-Fits d) (
                  if_rule FitsAny (c == b'<') (after_less-Fits d)
                    (if_rule FitsAny (c == b'>') (after_greater-Fits d) (tt))))))))))

operator-Fits : (c d e : ℕ) {s : Scan} → operator c d e ≡ some s → Fits s
operator-Fits c d e h = subst FitsAny h (operator-FitsAny c d e)

-- The four ways that the `switch` goes.
pub scan_cases {ℓ} :
    (P : Scan → Type ℓ) (bs : Bytes)
    → (peek_at 0 bs ≡ eof → P (scanned end 0 0 1))
    → ((k : Kind) → single (peek_at 0 bs) ≡ some k → P (scanned k 0 1 1))
    → ((s : Scan) → operator (peek_at 0 bs) (peek_at 1 bs) (peek_at 2 bs) ≡ some s → P s)
    → P (scan_long bs)
    → P (scan bs)
unfolding scan
scan_cases P bs stop one op long = elim (Bool-cases (peek_at 0 bs == eof)) [
  | inl e ↦ rw e (stop (ground arith))
  | inr e ↦ rw e (elim (Option-cases (single (peek_at 0 bs))) [
    | inl none_one ↦
        rw none_one (elim (Option-cases (operator (peek_at 0 bs) (peek_at 1 bs) (peek_at 2 bs))) [
          | inl none_op ↦ rw none_op long
          | inr (s, found) ↦ rw found (op s found)
        ])
    | inr (k, found) ↦ rw found (one k found)
  ])
]

scan-Fits : (bs : Bytes) → Fits (scan bs)
scan-Fits bs =
    scan_cases Fits bs (λ e. omega arith)
      (λ k found.
        let p = single-Plain (peek_at 0 bs) found in
        record {
          covers = omega arith;
          moves = omega arith;
          near = omega arith;
          blank = no_blank k 1 p;
        })
      (λ s found. operator-Fits (peek_at 0 bs) (peek_at 1 bs) (peek_at 2 bs) found)
      (scan_long-Fits bs)

-- Every call of `read` moves on.
pub read-progress : (l : Lexer) → l.offset < (read l).1.offset
unfolding read skip
read-progress l = let f = scan-Fits (drop (skip l) l.bytes) in omega arith

no_width : (k : Kind) (w : ℕ) → k ≡ end → uncovered k * w ≡ 0 → w ≡ 0
no_width k w h e =
    let b : uncovered end * w ≡ 0 = subst (λ j. uncovered j * w ≡ 0) h e in omega (arith, b)

-- The range of a token ends at the offset where `read` stopped, except that `END` is empty and
-- one step short of it, and that `+=`, `-=`, `*=`, `->` and `!=` end one byte further on.
pub read-range_end :
    (l : Lexer)
    → let (t, l') = read l in
      (fin t.range + uncovered t.kind ≡ l'.offset + overrun t.kind)
      × (t.kind ≡ end → t.range.length ≡ 0)
unfolding read
read-range_end l =
    let s = scan (drop (skip l) l.bytes) in
    let f = scan-Fits (drop (skip l) l.bytes) in
    (omega arith, λ h. no_width s.kind s.width h f.blank)
