-- ===== src/Eval.antt =====
-- cg_expr.cpp: the constants that expressions stand for, the functions `eval_value`.
pub mod Folds
use rox.Prelude.{
  equal, length, get_elem?, set, take, drop, replicate, length-append, length-take, length-drop,
  length-replicate, length-set, get_elem?-set_self, get_elem?-set_ne, get_or, ==_iff, Bool-cases,
  All, ◌≢◌, zero, suc, ◌+◌, ◌-◌, ◌*◌, ◌/◌, ◌%◌, ◌^◌, ◌≤◌, ◌<◌, ◌≡◌, refl, arith, ◌⊎◌, inl, inr,
  Bool, true, false, if◌then◌else◌, Option, none, some, List, [], ◌∷◌, ◌==◌, ltb, leb, ◌&&◌, ◌||◌,
  not, ◌++◌, ◌↔◌, ℕ, ℕ_discrete, dec_lt, ap, sym,
}
use Prim.Native.Nat.{bit_and, bit_or}
use rox.Lexer.Char.{Bytes}
use rox.Lexer.Token.{Range}
use rox.Parser.State.{include}
use rox.Ast.{
  array_type, AstType, Expr, Exprs, IntKind, FltKind, BinOp, LBinOp, tuple_expr, var_expr, int_expr,
  flt_expr, str_expr, bool_expr, agg_expr, typed_agg_expr, bin_expr, lbin_expr, index_expr,
  cast_expr, prop_expr, no_exprs, more_exprs, expr_range,
}
use rox.Const.{
  Const, Consts, BoolKind, int_const, bool_const, flt_const, string_const, tuple_const, array_const,
  no_consts, more_consts, no_fields, copy, to_uint, uint_kind,
}

-- What the surroundings give: the global constants of `Cg` in order; the size, alignment or extent
-- of the type of an expression, by the name of a property; and the conversion of floats.
pub record Known : Type 0 where
  pub globals : List (Bytes × Const)
  pub property : Expr → Bytes → Option ℕ
  pub of_float : FltKind → Bytes → ℕ

-- A pattern of 128 bits from the lowest w, with the sign carried on.
abbrev pub signed : ℕ → ℕ → ℕ
signed w n = let m = n % 2 ^ w in if ltb m (2 ^ (w - 1)) then m else m + (2 ^ 128 - 2 ^ w)

abbrev pub literal : IntKind → ℕ → ℕ
literal IntKind.u8 n = n % 2 ^ 8
literal IntKind.u16 n = n % 2 ^ 16
literal IntKind.u32 n = n % 2 ^ 32
literal IntKind.u64 n = n % 2 ^ 64
literal IntKind.s8 n = signed 8 n
literal IntKind.s16 n = signed 16 n
literal IntKind.s32 n = signed 32 n
literal IntKind.s64 n = signed 64 n
literal IntKind.untyped n = n

abbrev pub int_number : IntKind → ℕ
int_number IntKind.u8 = 1
int_number IntKind.u16 = 2
int_number IntKind.u32 = 3
int_number IntKind.u64 = 4
int_number IntKind.s8 = 5
int_number IntKind.s16 = 6
int_number IntKind.s32 = 7
int_number IntKind.s64 = 8
int_number IntKind.untyped = 20

abbrev pub bool_number : BoolKind → ℕ
bool_number BoolKind.b8 = 9
bool_number BoolKind.b16 = 10
bool_number BoolKind.b32 = 11
bool_number BoolKind.b64 = 12

abbrev pub truth : Bool → ℕ
truth b = if b then 1 else 0

-- Signed numbers in order: their patterns with the sign turned round.
abbrev ordered : Bool → ℕ → ℕ
ordered true n = n
ordered false n = (n + 2 ^ 127) % 2 ^ 128

-- A shift to the right carries the sign on. A shift by 128 or more has no meaning in C++.
abbrev shift_right : Bool → ℕ → ℕ → ℕ
shift_right u a b =
    if u || ltb a (2 ^ 127) then a / 2 ^ b else 2 ^ 128 - 1 - (2 ^ 128 - 1 - a) / 2 ^ b

abbrev negative : ℕ → Bool
negative n = leb (2 ^ 127) n

abbrev magnitude : ℕ → ℕ
magnitude n = if negative n then 2 ^ 128 - n else n

-- A signed result by its sign and magnitude. Out of range it has no meaning in C++, here none.
abbrev pub signed_result : Bool → ℕ → Option ℕ
signed_result true m = if leb m (2 ^ 127) then some ((2 ^ 128 - m) % 2 ^ 128) else none
signed_result false m = if ltb m (2 ^ 127) then some m else none

abbrev same_truth : Bool → Bool → Bool
same_truth true b = b
same_truth false b = not b

-- Sums, differences and products of unsigned numbers, which wrap around, and of signed ones.
abbrev pub sum_of : Bool → ℕ → ℕ → Option ℕ
sum_of true a b = some ((a + b) % 2 ^ 128)
sum_of false a b =
    if same_truth (negative a) (negative b)
    then signed_result (negative a) (magnitude a + magnitude b)
    else some ((a + b) % 2 ^ 128)

abbrev pub difference_of : Bool → ℕ → ℕ → Option ℕ
difference_of true a b = some ((a + 2 ^ 128 - b) % 2 ^ 128)
difference_of false a b =
    if same_truth (negative a) (negative b)
    then some ((a + 2 ^ 128 - b) % 2 ^ 128)
    else signed_result (negative a) (magnitude a + magnitude b)

abbrev pub product_of : Bool → ℕ → ℕ → Option ℕ
product_of true a b = some (a * b % 2 ^ 128)
product_of false a b =
    signed_result (not (same_truth (negative a) (negative b))) (magnitude a * magnitude b)

-- The operators on two patterns, unsigned or signed.
unfoldable pub fold : Bool → BinOp → ℕ → ℕ → Option ℕ
fold u BinOp.add a b = sum_of u a b
fold u BinOp.sub a b = difference_of u a b
fold u BinOp.mul a b = product_of u a b
fold u BinOp.eq a b = some (truth (a == b))
fold u BinOp.ne a b = some (truth (not (a == b)))
fold u BinOp.gt a b = some (truth (ltb (ordered u b) (ordered u a)))
fold u BinOp.ge a b = some (truth (leb (ordered u b) (ordered u a)))
fold u BinOp.lt a b = some (truth (ltb (ordered u a) (ordered u b)))
fold u BinOp.le a b = some (truth (leb (ordered u a) (ordered u b)))
fold u BinOp.bor a b = some (bit_or a b)
fold u BinOp.band a b = some (bit_and a b)
fold u BinOp.lshift a b = if ltb b 128 then some (a * 2 ^ b % 2 ^ 128) else none
fold u BinOp.rshift a b = if ltb b 128 then some (shift_right u a b) else none
fold u _ a b = none

abbrev fold_bool : BinOp → Bool → Bool → Option Bool
fold_bool BinOp.eq a b = some (same_truth a b)
fold_bool BinOp.ne a b = some (not (same_truth a b))
fold_bool _ a b = none

abbrev int_result : Range → IntKind → Option ℕ → Option Const
int_result r k none = none
int_result r k (some n) = some (int_const r k n)

abbrev bool_result : Range → BoolKind → Option Bool → Option Const
bool_result r k none = none
bool_result r k (some b) = some (bool_const r k b)

-- Both operands have a value, of one kind; the result has that kind, a comparison too.
unfoldable pub binary : Range → BinOp → Option Const → Option Const → Option Const
binary r o (some (int_const _ j a)) (some (int_const _ k b)) =
    if int_number j == int_number k then int_result r j (fold (uint_kind j) o a b) else none
binary r o (some (bool_const _ j a)) (some (bool_const _ k b)) =
    if bool_number j == bool_number k then bool_result r j (fold_bool o a b) else none
binary r o _ _ = none

abbrev logic : LBinOp → Bool → Bool → Bool
logic LBinOp.lor a b = a || b
logic LBinOp.land a b = a && b

unfoldable pub logical : Range → LBinOp → Option Const → Option Const → Option Const
logical r o (some (bool_const _ j a)) (some (bool_const _ k b)) =
    if bool_number j == bool_number k then some (bool_const r j (logic o a b)) else none
logical r o _ _ = none

abbrev copy_at : Consts → ℕ → Option Const
copy_at no_consts i = none
copy_at (more_consts c cs) zero = copy c
copy_at (more_consts c cs) (suc i) = copy_at cs i

abbrev char_const : Range → Option ℕ → Option Const
char_const r none = none
char_const r (some c) = if c == 0 then none else some (int_const r IntKind.u8 (c % 2 ^ 8))

abbrev pub element : Range → Const → Option ℕ → Option Const
element r c none = none
element r (tuple_const _ t cs fs) (some i) = copy_at cs i
element r (string_const _ s) (some i) = char_const r (get_elem? s i)
element r _ (some i) = none

-- Of an array the source reads the elements of the index, which has none: no meaning in C++, here
-- none, as is a character past the end of a string.
unfoldable pub index : Known → Range → Option Const → Option Const → Option Const
index env r (some c) (some i) = element r c (to_uint env.of_float 64 i)
index env r _ _ = none

abbrev pub const_range : Const → Range
const_range (Const.no_const r) = r
const_range (int_const r _ _) = r
const_range (bool_const r _ _) = r
const_range (flt_const r _ _) = r
const_range (string_const r _) = r
const_range (tuple_const r _ _ _) = r
const_range (array_const r _ _) = r

abbrev word_const : Range → Option ℕ → Option Const
word_const r none = none
word_const r (some n) = some (int_const r IntKind.u64 n)

-- The source takes the value of nothing where there is no number: here none.
unfoldable pub cast : Known → Option Const → Option Const
cast env none = none
cast env (some c) = word_const (const_range c) (to_uint env.of_float 64 c)

unfoldable pub lookup : List (Bytes × Const) → Bytes → Option Const
lookup [] name = none
lookup ((n, c) ∷ gs) name = if equal n name then copy c else lookup gs name

unfoldable pub prop : Known → Expr → Expr → Option Const
prop env (var_expr r name) e = word_const (include r (expr_range e)) (env.property e name)
prop env _ e = none

abbrev both : Option Const → Option Consts → Option Consts
both (some c) (some cs) = some (more_consts c cs)
both _ _ = none

-- The ranges of the expressions together; there is none of no expression.
abbrev spread : Range → Exprs → Range
spread r no_exprs = r
spread r (more_exprs e es) = spread (include r (expr_range e)) es

abbrev as_tuple : Exprs → Option Consts → (Range → Consts → Const) → Option Const
as_tuple no_exprs cs f = none
as_tuple (more_exprs e es) none f = none
as_tuple (more_exprs e es) (some cs) f = some (f (spread (expr_range e) es) cs)

abbrev is_array_type : AstType → Bool
is_array_type (array_type _ _ _ _) = true
is_array_type _ = false

-- `detuple` takes the only expression out of a tuple.
unfoldable mutual
  pub eval : Known → Expr → Option Const
  eval env (tuple_expr r es) =
      as_tuple es (eval_all env es) (λ q cs. tuple_const q none cs no_fields)
  eval env (var_expr r name) = lookup env.globals name
  eval env (int_expr r k n) = some (int_const r k (literal k n))
  eval env (flt_expr r k x) = some (flt_const r k x)
  eval env (str_expr r s) = some (string_const r s)
  eval env (bool_expr r b) = some (bool_const r BoolKind.b32 b)
  eval env (agg_expr r es) = as_tuple es (eval_all env es) (λ q cs. array_const q none cs)
  eval env (typed_agg_expr r t es) = as_tuple es (eval_all env es) (λ q cs.
      if is_array_type t then array_const q (some t) cs else tuple_const q (some t) cs no_fields)
  eval env (bin_expr r o a b) = binary r o (eval env a) (eval env b)
  eval env (lbin_expr r o a b) = logical r o (eval env a) (eval env b)
  eval env (index_expr r (tuple_expr q (more_exprs e no_exprs)) i) =
      index env r (eval env e) (eval env i)
  eval env (index_expr r e i) = index env r (eval env e) (eval env i)
  eval env (cast_expr r (tuple_expr q (more_exprs e no_exprs)) t) = cast env (eval env e)
  eval env (cast_expr r e t) = cast env (eval env e)
  eval env (prop_expr r p e) = prop env p e
  eval env _ = none

  pub eval_all : Known → Exprs → Option Consts
  eval_all env no_exprs = some no_consts
  eval_all env (more_exprs e es) = both (eval env e) (eval_all env es)
