-- ===== src/Eval/Folds.antt =====
-- Arithmetic on integer literals, as cg_expr.cpp folds it.
use rox.Prelude.{Bool, true, false}
use rox.Prelude.{◌∙◌, ==_iff, ◌+◌, ◌-◌, ◌*◌, ◌/◌, ◌%◌, ◌^◌, ◌≤◌, ◌<◌, ◌≡◌, refl, arith, some, ℕ, ap}
use native.Mathlib.Nat.{mul_comm, div-add-mod}
use rox.Ast.{Expr, IntKind, BinOp, int_expr, bin_expr, expr_range}
use rox.Const.{int_const, uint_kind}
use rox.Eval.{Range, Known, eval, literal, int_number, fold, binary}

-- A number that arithmetic of a kind keeps: any number where it is unsigned, and wraps around, and
-- one below 2 ^ 127 where it is signed.
abbrev pub Within : Bool → ℕ → Type 0
Within true v = Unit
Within false v = v < 2 ^ 127

-- Sums, products and differences that are not negative of literals of one kind, and the numbers
-- that they stand for, if arithmetic of that kind keeps the literals, sums and products.
pub data Means (k : IntKind) : Expr → ℕ → Type 0 where
  means_literal :
      (r : Range) (n : ℕ)
      → literal k n ≡ n
      → n < 2 ^ 128
      → Within (uint_kind k) n
      → Means k (int_expr r k n) n
  means_add :
      (r : Range) (a b : Expr) (x y : ℕ)
      → Means k a x
      → Means k b y
      → Within (uint_kind k) (x + y)
      → Means k (bin_expr r BinOp.add a b) (x + y)
  means_sub :
      (r : Range) (a b : Expr) (x y : ℕ)
      → y ≤ x
      → Means k a x
      → Means k b y
      → Means k (bin_expr r BinOp.sub a b) (x - y)
  means_mul :
      (r : Range) (a b : Expr) (x y : ℕ)
      → Means k a x
      → Means k b y
      → Within (uint_kind k) (x * y)
      → Means k (bin_expr r BinOp.mul a b) (x * y)

mul_low : (x y : ℕ) → (x % 2 ^ 128) * y % 2 ^ 128 ≡ x * y % 2 ^ 128
mul_low x y =
    let split : 2 ^ 128 * (x / 2 ^ 128) + x % 2 ^ 128 ≡ x = div-add-mod x (2 ^ 128) in
    let parts : (2 ^ 128 * (x / 2 ^ 128) + x % 2 ^ 128) * y
        ≡ 2 ^ 128 * (x / 2 ^ 128 * y) + x % 2 ^ 128 * y =
      omega arith in
    omega (arith, ap (λ z. z * y) split, parts)

mul_mod : (x y : ℕ) → (x % 2 ^ 128) * (y % 2 ^ 128) % 2 ^ 128 ≡ x * y % 2 ^ 128
mul_mod x y = mul_low x (y % 2 ^ 128) ∙ (rw (mul_comm x (y % 2 ^ 128), mul_comm x y) (mul_low y x))

no_more : (u : Bool) (x y : ℕ) → Within u x → y ≤ x → Within u y
no_more true x y h l = tt
no_more false x y h l = omega arith

Means-Within : {k : IntKind} {e : Expr} {v : ℕ} → Means k e v → Within (uint_kind k) v
Means-Within (means_literal r n h l w) = w
Means-Within (means_add r a b x y p q w) = w
Means-Within {k} (means_sub r a b x y l p q) =
    no_more (uint_kind k) x (x - y) (Means-Within p) (omega arith)
Means-Within (means_mul r a b x y p q w) = w

-- Arithmetic on numbers that are kept.
fold-add :
    (u : Bool) (x y : ℕ)
    → Within u x
    → Within u y
    → Within u (x + y)
    → fold u BinOp.add (x % 2 ^ 128) (y % 2 ^ 128) ≡ some ((x + y) % 2 ^ 128)
unfolding fold
fold-add true x y p q r = ap some (omega arith)
fold-add false x y p q r =
    let e : x % 2 ^ 128 ≡ x = omega arith in
    let f : y % 2 ^ 128 ≡ y = omega arith in rw (e, f) (ground (arith, p, q, r))

fold-sub :
    (u : Bool) (x y : ℕ)
    → Within u x
    → Within u y
    → y ≤ x
    → fold u BinOp.sub (x % 2 ^ 128) (y % 2 ^ 128) ≡ some ((x - y) % 2 ^ 128)
unfolding fold
fold-sub true x y p q r = ap some (omega arith)
fold-sub false x y p q r =
    let e : x % 2 ^ 128 ≡ x = omega arith in
    let f : y % 2 ^ 128 ≡ y = omega arith in rw (e, f) (ground (arith, p, q, r))

fold-mul :
    (u : Bool) (x y : ℕ)
    → Within u x
    → Within u y
    → Within u (x * y)
    → fold u BinOp.mul (x % 2 ^ 128) (y % 2 ^ 128) ≡ some (x * y % 2 ^ 128)
unfolding fold
fold-mul true x y p q r = ap some (mul_mod x y)
fold-mul false x y p q r =
    let e : x % 2 ^ 128 ≡ x = omega arith in
    let f : y % 2 ^ 128 ≡ y = omega arith in rw (e, f) (ground (arith, p, q, r))

-- Two operands that are folded.
binary_ints :
    (r q p : Range) (o : BinOp) (k : IntKind) (a b n : ℕ)
    → fold (uint_kind k) o a b ≡ some n
    → binary r o (some (int_const q k a)) (some (int_const p k b)) ≡ some (int_const r k n)
unfolding binary
binary_ints r q p o k a b n h = rw ((==_iff (int_number k) (int_number k)).1 refl, h) refl

-- An expression of additions, multiplications and differences that are not negative, over
-- integer literals of one kind that keep their value in it, is folded to a constant of that kind
-- and of the range of the expression whose value is exact, without a cut to the width of the
-- kind, where for a signed kind the literals, sums and products are below 2 ^ 127, and for an
-- unsigned kind is exact below 2 ^ 128 and cut off there.
pub eval-Means :
    (env : Known) (k : IntKind) (e : Expr) (v : ℕ)
    → Means k e v
    → eval env e ≡ some (int_const (expr_range e) k (v % 2 ^ 128))
unfolding eval expr_range
eval-Means env k _ _ (means_literal r n h l w) =
    let e : n % 2 ^ 128 ≡ n = omega arith in rw (e, h) refl
eval-Means env k _ _ (means_add r a b x y p q w) =
    rw (eval-Means env k a x p, eval-Means env k b y q)
      (binary_ints r _ _ BinOp.add k _ _ _
        (fold-add (uint_kind k) x y (Means-Within p) (Means-Within q) w))
eval-Means env k _ _ (means_sub r a b x y l p q) =
    rw (eval-Means env k a x p, eval-Means env k b y q)
      (binary_ints r _ _ BinOp.sub k _ _ _
        (fold-sub (uint_kind k) x y (Means-Within p) (Means-Within q) l))
eval-Means env k _ _ (means_mul r a b x y p q w) =
    rw (eval-Means env k a x p, eval-Means env k b y q)
      (binary_ints r _ _ BinOp.mul k _ _ _
        (fold-mul (uint_kind k) x y (Means-Within p) (Means-Within q) w))
