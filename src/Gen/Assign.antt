-- ===== src/Gen/Assign.antt =====
-- cg_stmt.cpp: `codegen` of `let`, `using`, expressions and assignments.
use rox.Gen.Emit.{pure}
use rox.Prelude.{
  codes, ◌%◌, ◌^◌, Bool, true, false, if◌then◌else◌, Option, none, some, List, [], ◌∷◌, ◌==◌, ◌||◌,
  ◌++◌, ℕ,
}
use rox.Ast.{Expr, Attrs, tuple_expr, agg_expr, typed_agg_expr, no_exprs, no_attrs, more_attrs}
use rox.Stmt.{StoreOp}
use rox.Lexer.Char.{Bytes}
use rox.Lexer.Token.{Range}
use rox.Types.{is_union_kind, CgType, TypeKind, kind, types, nth, size, align}
use rox.Const.{Const, int_const}
use rox.Eval.{Known, eval, const_range}
use rox.Gen.{equal, find_type}
use rox.Gen.Emit.{
  emit_alloca, guard, memcpy, needed, read, reported, Trouble, build, call, done, last_scope,
  report, unsound, Expressions, Step, ◌>>=◌, ◌>>◌,
}
use rox.Gen.Scopes.{Ref, Value}
use rox.Gen.TypeGen.{plain}
use rox.Types.Same.{differ, contains}

-- What stays the same in a unit: the constants known, the addresses of functions by the number of
-- their node, and the operations on expressions.
pub record FnVar : Type 0 where
  pub node : Option ℕ
  pub addr : Value

pub record Unit_ : Type 0 where
  pub known : Known
  pub fns : List FnVar
  pub on : Expressions

abbrev pub b32_type : CgType
b32_type = plain TypeKind.b32 4

abbrev pub deref : CgType → Option CgType
deref t = nth (types t) 0

-- The address of the function with a number.
abbrev same_node : Option ℕ → ℕ → Bool
same_node none i = false
same_node (some j) i = j == i

unfoldable pub fn_addr : List FnVar → ℕ → Option Value
fn_addr [] i = none
fn_addr (v ∷ vs) i = if same_node v.node i then some v.addr else fn_addr vs i

abbrev pub is_tuple_kind : TypeKind → Bool
is_tuple_kind TypeKind.tuple = true
is_tuple_kind _ = false

abbrev pub is_tuple : CgType → Bool
is_tuple t = is_tuple_kind (kind t)

abbrev pub is_array_kind : TypeKind → Bool
is_array_kind TypeKind.array = true
is_array_kind _ = false

abbrev pub is_atomic_kind : TypeKind → Bool
is_atomic_kind TypeKind.atomic = true
is_atomic_kind _ = false

abbrev pub is_union : CgType → Bool
is_union t = is_union_kind (kind t)

abbrev pub expect : {A : Type 0} → Range → Trouble → Option A → Step A
expect r t none b = reported r t
expect r t (some a) b = done a b

-- The value of an attribute, as a constant of some kind: the report reads the range of a constant,
-- which may not be there.
abbrev pub attribute : {A : Type 0} → (Const → Option A) → Trouble → Option Const → Step A
attribute f t none b = unsound
attribute f t (some c) b = expect (const_range c) t (f c) b

abbrev pub to_integral : Const → Option ℕ
to_integral (int_const q k n) = some (n % 2 ^ 64)
to_integral _ = none

abbrev pub integral : Option Const → Step ℕ
integral o = attribute to_integral Trouble.not_integral o

abbrev pub align_name : Bytes
align_name = codes "align"

abbrev pub set_alignment : Ref → ℕ → Step (Unit {0})
set_alignment v n b = done tt (record b { alignments = (v, n) ∷ b.alignments })

module _ (u : Unit_) where
  -- A value is stored where there is no address to copy from.
  abbrev pub store_init : Expr → CgType → Value → Step Value
  store_init e t a = do
    o ← call (u.on.gen_value e (some t))
    v ← needed o
    stored ← call (u.on.store a v)
    guard stored
    pure a

  abbrev pub copy_init : Expr → CgType → Value → Option Value → Step Value
  copy_init e t a none = store_init e t a
  copy_init e t a (some src) = do build (memcpy a.ref src.ref (align t) (size t)); pure a

  abbrev pub storage : Expr → CgType → Value → Step Value
  storage e t a =
      if is_tuple t || is_array_kind (kind t)
      then (do src ← call (u.on.gen_addr e); copy_init e t a src)
      else store_init e t a

  abbrev pub init_storage : Expr → Step Value
  init_storage e = do
    o ← call (u.on.gen_type e none)
    t ← needed o
    a ← emit_alloca t
    storage e t a

  abbrev pub in_place : Expr → Step Value
  in_place e = do o ← call (u.on.gen_addr e); needed o

  -- Aggregates and tuples are built in place.
  unfoldable pub let_storage : Expr → Step Value
  let_storage (tuple_expr r es) = in_place (tuple_expr r es)
  let_storage (agg_expr r es) = in_place (agg_expr r es)
  let_storage (typed_agg_expr r t es) = in_place (typed_agg_expr r t es)
  let_storage e = init_storage e

  -- Only the first attribute is looked at.
  abbrev pub let_attrs : Range → Attrs → Value → Step (Unit {0})
  let_attrs r no_attrs a = pure tt
  let_attrs r (more_attrs q name e rest) a =
      if equal name align_name
      then (do n ← integral (eval u.known e); set_alignment a.ref n)
      else report r Trouble.unknown_attribute

  abbrev pub add_var : Bytes → Value → Step (Unit {0})
  add_var name a =
      last_scope (λ c. record c { vars = c.vars ++ (record { name = name; addr = a } ∷ []) })

  -- `AstLetStmt`.
  unfoldable pub gen_let : Range → Bytes → Expr → Attrs → Step (Unit {0})
  gen_let r name e attrs = do a ← let_storage e; let_attrs r attrs a; add_var name a

  abbrev pub using_as : Range → Bytes → Expr → Option CgType → Step (Unit {0})
  using_as r name e none = report r Trouble.undeclared_effect
  using_as r name e (some t) = do
    a ← emit_alloca t
    o ← call (u.on.gen_value e (some t))
    v ← read o
    stored ← call (u.on.store a v)
    guard stored
    last_scope (λ c. record c { usings = c.usings ++ (record { name = name; addr = a } ∷ []) })

  -- `AstUsingStmt`.
  unfoldable pub gen_using : Range → Bytes → Expr → Step (Unit {0})
  gen_using r name e b = using_as r name e (find_type b.declared.effects name) b

  -- `AstExprStmt`: the empty tuple does nothing.
  unfoldable pub gen_expr : Expr → Step (Unit {0})
  gen_expr (tuple_expr r no_exprs) = pure tt
  gen_expr e = do o ← call (u.on.gen_value e none); v ← needed o; pure tt

  -- The type that is stored: of a union, one of its types where it has the source's.
  abbrev pub compatible : CgType → CgType → CgType
  compatible dst src =
      if is_union dst then elim (contains (types dst) src) [ none ↦ dst | some t ↦ t ] else dst

  abbrev pub store_back : Value → Value → Step (Unit {0})
  store_back a v = do stored ← call (u.on.store a v); guard stored

  unfoldable pub assign_as : Range → StoreOp → Value → Value → Step (Unit {0})
  assign_as r StoreOp.wr a v = store_back a v
  assign_as r o a v = do
    old ← call (u.on.load a)
    res ← call (u.on.arithmetic o old v r)
    w ← needed res
    store_back a w

  abbrev pub assign_typed : Range → StoreOp → CgType → Value → Value → Step (Unit {0})
  assign_typed r o t a v =
      if is_atomic_kind (kind t)
      then report r Trouble.assign_to_atomic
      else if differ (compatible t v.type) v.type
      then report r Trouble.assign_mismatch
      else assign_as r o a v

  -- `AstAssignStmt`.
  unfoldable pub gen_assign : Range → StoreOp → Expr → Expr → Step (Unit {0})
  gen_assign r o dst src = do
    d ← call (u.on.gen_addr dst)
    a ← needed d
    t ← read (deref a.type)
    s ← call (u.on.gen_value src (some t))
    v ← needed s
    assign_typed r o t a v
