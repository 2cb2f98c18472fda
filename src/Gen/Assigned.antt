-- ===== src/Gen/Assigned.antt =====
-- Code generation of `let`, `using`, expressions and assignments keeps the scopes balanced.
use rox.Gen.Assign.{attribute, expect}
use rox.Eval.{const_range}
use rox.Gen.Emit.{Trouble}
use rox.Gen.{find_type}
use rox.Gen.Emit.{pure}
use rox.Gen.Assign.{deref}
use rox.Prelude.{equal, refl, Option, none, some, [], ◌∷◌, ◌||◌, ◌++◌, ℕ}
use rox.Ast.{
  Expr, Attrs, no_attrs, more_attrs, tuple_expr, agg_expr, typed_agg_expr, no_exprs, more_exprs,
}
use rox.Stmt.{StoreOp}
use rox.Const.{Const}
use rox.Lexer.Char.{Bytes}
use rox.Lexer.Token.{Range}
use rox.Types.{kind, CgType}
use rox.Eval.{eval}
use rox.Gen.Scopes.{Value, Ref}
use rox.Gen.Emit.{Trouble, call, needed, ◌>>=◌}
use rox.Gen.Assign.{
  Unit_, set_alignment, is_array_kind, is_atomic_kind, is_tuple, store_init, copy_init, storage,
  init_storage, in_place, let_storage, let_attrs, using_as, store_back, compatible, assign_as,
  gen_let, gen_using, gen_expr, gen_assign, align_name,
}
use rox.Gen.Holds.{holds_reported, holds_done, holds_unsound, IsQuiet}
use rox.Gen.Keeps.{
  Keeps-guard, Keeps-needed, Keeps-read, Keeps-build, Keeps-call, Keeps-emit_alloca,
  Keeps-last_scope, Keeps-bind, Keeps-if, Keeps-pure, Keeps-report, Keeps,
}
use rox.Types.Same.{differ}

expect-Keeps : {A : Type 0} (r : Range) (t : Trouble) (o : Option A) → Keeps (expect r t o)
expect-Keeps r t none cs b k = holds_reported r t
expect-Keeps r t (some a) cs b k = holds_done a b k

pub attribute-Keeps :
    {A : Type 0} (f : Const → Option A) (t : Trouble) (o : Option Const) → Keeps (attribute f t o)
attribute-Keeps f t none cs b k = holds_unsound
attribute-Keeps f t (some c) cs b k = expect-Keeps (const_range c) t (f c) cs b k

set_alignment-Keeps : (v : Ref) (n : ℕ) → Keeps (set_alignment v n)
set_alignment-Keeps v n cs b k = holds_done tt _ k

module _ (u : Unit_) (q : IsQuiet u.on) where
  store_back-Keeps : (a v : Value) → Keeps (store_back u a v)
  store_back-Keeps a v = Keeps-bind (Keeps-call (u.on.store a v) (q.store a v)) Keeps-guard

  store_init-Keeps : (e : Expr) (t : CgType) (a : Value) → Keeps (store_init u e t a)
  store_init-Keeps e t a =
      Keeps-bind (Keeps-call (u.on.gen_value e (some t)) (q.gen_value e (some t))) (λ o.
        Keeps-bind (Keeps-needed o) (λ v.
          Keeps-bind (Keeps-call (u.on.store a v) (q.store a v))
            (λ stored. Keeps-bind (Keeps-guard stored) (λ x. Keeps-pure a))))

  copy_init-Keeps :
      (e : Expr) (t : CgType) (a : Value) (o : Option Value) → Keeps (copy_init u e t a o)
  copy_init-Keeps e t a none = store_init-Keeps e t a
  copy_init-Keeps e t a (some v) = Keeps-bind (Keeps-build _) (λ x. Keeps-pure a)

  storage-Keeps : (e : Expr) (t : CgType) (a : Value) → Keeps (storage u e t a)
  storage-Keeps e t a =
      Keeps-if (is_tuple t || is_array_kind (kind t))
        (Keeps-bind (Keeps-call (u.on.gen_addr e) (q.gen_addr e)) (copy_init-Keeps e t a))
        (store_init-Keeps e t a)

  init_storage-Keeps : (e : Expr) → Keeps (init_storage u e)
  init_storage-Keeps e =
      Keeps-bind (Keeps-call (u.on.gen_type e none) (q.gen_type e none)) (λ o.
        Keeps-bind (Keeps-needed o) (λ t. Keeps-bind (Keeps-emit_alloca t) (storage-Keeps e t)))

  in_place-Keeps : (e : Expr) → Keeps (in_place u e)
  in_place-Keeps e = Keeps-bind (Keeps-call (u.on.gen_addr e) (q.gen_addr e)) Keeps-needed

  let_storage-Keeps : (e : Expr) → Keeps (let_storage u e)
  unfolding let_storage
  let_storage-Keeps (tuple_expr r es) = in_place-Keeps (tuple_expr r es)
  let_storage-Keeps (agg_expr r es) = in_place-Keeps (agg_expr r es)
  let_storage-Keeps (typed_agg_expr r t es) = in_place-Keeps (typed_agg_expr r t es)
  let_storage-Keeps (Expr.call_expr a b c d) = init_storage-Keeps (Expr.call_expr a b c d)
  let_storage-Keeps (Expr.type_expr a b) = init_storage-Keeps (Expr.type_expr a b)
  let_storage-Keeps (Expr.var_expr a b) = init_storage-Keeps (Expr.var_expr a b)
  let_storage-Keeps (Expr.selector_expr a b) = init_storage-Keeps (Expr.selector_expr a b)
  let_storage-Keeps (Expr.int_expr a b c) = init_storage-Keeps (Expr.int_expr a b c)
  let_storage-Keeps (Expr.flt_expr a b c) = init_storage-Keeps (Expr.flt_expr a b c)
  let_storage-Keeps (Expr.str_expr a b) = init_storage-Keeps (Expr.str_expr a b)
  let_storage-Keeps (Expr.bool_expr a b) = init_storage-Keeps (Expr.bool_expr a b)
  let_storage-Keeps (Expr.bin_expr a b c d) = init_storage-Keeps (Expr.bin_expr a b c d)
  let_storage-Keeps (Expr.lbin_expr a b c d) = init_storage-Keeps (Expr.lbin_expr a b c d)
  let_storage-Keeps (Expr.unary_expr a b c) = init_storage-Keeps (Expr.unary_expr a b c)
  let_storage-Keeps (Expr.index_expr a b c) = init_storage-Keeps (Expr.index_expr a b c)
  let_storage-Keeps (Expr.explode_expr a b) = init_storage-Keeps (Expr.explode_expr a b)
  let_storage-Keeps (Expr.eff_expr a b) = init_storage-Keeps (Expr.eff_expr a b)
  let_storage-Keeps (Expr.infer_size_expr a) = init_storage-Keeps (Expr.infer_size_expr a)
  let_storage-Keeps (Expr.access_expr a b c) = init_storage-Keeps (Expr.access_expr a b c)
  let_storage-Keeps (Expr.cast_expr a b c) = init_storage-Keeps (Expr.cast_expr a b c)
  let_storage-Keeps (Expr.test_expr a b c) = init_storage-Keeps (Expr.test_expr a b c)
  let_storage-Keeps (Expr.prop_expr a b c) = init_storage-Keeps (Expr.prop_expr a b c)

  let_attrs-Keeps : (r : Range) (as_ : Attrs) (a : Value) → Keeps (let_attrs u r as_ a)
  let_attrs-Keeps r no_attrs a = Keeps-pure tt
  let_attrs-Keeps r (more_attrs p name e rest) a =
      Keeps-if (equal name align_name)
        (Keeps-bind (attribute-Keeps _ _ (eval u.known e)) (set_alignment-Keeps a.ref))
        (Keeps-report r _)

  pub gen_let-Keeps :
      (r : Range) (name : Bytes) (e : Expr) (as_ : Attrs) → Keeps (gen_let u r name e as_)
  unfolding gen_let
  gen_let-Keeps r name e as_ = Keeps-bind (let_storage-Keeps e) (λ a.
      Keeps-bind (let_attrs-Keeps r as_ a) (λ x.
        Keeps-last_scope
          (λ c. record c { vars = c.vars ++ (record { name = name; addr = a } ∷ []) }) (λ c. refl)))

  using_as-Keeps :
      (r : Range) (name : Bytes) (e : Expr) (o : Option CgType) → Keeps (using_as u r name e o)
  using_as-Keeps r name e none = Keeps-report r _
  using_as-Keeps r name e (some t) = Keeps-bind (Keeps-emit_alloca t) (λ a.
      Keeps-bind (Keeps-call (u.on.gen_value e (some t)) (q.gen_value e (some t))) (λ o.
        Keeps-bind (Keeps-read o) (λ v.
          Keeps-bind (Keeps-call (u.on.store a v) (q.store a v)) (λ stored.
            Keeps-bind (Keeps-guard stored) (λ x.
              Keeps-last_scope
                (λ c. record c { usings = c.usings ++ (record { name = name; addr = a } ∷ []) })
                (λ c. refl))))))

  pub gen_using-Keeps : (r : Range) (name : Bytes) (e : Expr) → Keeps (gen_using u r name e)
  unfolding gen_using
  gen_using-Keeps r name e cs b k =
      using_as-Keeps r name e (find_type b.declared.effects name) cs b k

  valued-Keeps : (e : Expr) → Keeps (do o ← call (u.on.gen_value e none); v ← needed o; pure tt)
  valued-Keeps e =
      Keeps-bind (Keeps-call (u.on.gen_value e none) (q.gen_value e none))
        (λ o. Keeps-bind (Keeps-needed o) (λ v. Keeps-pure tt))

  pub gen_expr-Keeps : (e : Expr) → Keeps (gen_expr u e)
  unfolding gen_expr
  gen_expr-Keeps (tuple_expr r no_exprs) = Keeps-pure tt
  gen_expr-Keeps (tuple_expr r (more_exprs e es)) = valued-Keeps (tuple_expr r (more_exprs e es))
  gen_expr-Keeps (Expr.call_expr a b c d) = valued-Keeps (Expr.call_expr a b c d)
  gen_expr-Keeps (Expr.type_expr a b) = valued-Keeps (Expr.type_expr a b)
  gen_expr-Keeps (Expr.var_expr a b) = valued-Keeps (Expr.var_expr a b)
  gen_expr-Keeps (Expr.selector_expr a b) = valued-Keeps (Expr.selector_expr a b)
  gen_expr-Keeps (Expr.int_expr a b c) = valued-Keeps (Expr.int_expr a b c)
  gen_expr-Keeps (Expr.flt_expr a b c) = valued-Keeps (Expr.flt_expr a b c)
  gen_expr-Keeps (Expr.str_expr a b) = valued-Keeps (Expr.str_expr a b)
  gen_expr-Keeps (Expr.bool_expr a b) = valued-Keeps (Expr.bool_expr a b)
  gen_expr-Keeps (Expr.bin_expr a b c d) = valued-Keeps (Expr.bin_expr a b c d)
  gen_expr-Keeps (Expr.lbin_expr a b c d) = valued-Keeps (Expr.lbin_expr a b c d)
  gen_expr-Keeps (Expr.unary_expr a b c) = valued-Keeps (Expr.unary_expr a b c)
  gen_expr-Keeps (Expr.index_expr a b c) = valued-Keeps (Expr.index_expr a b c)
  gen_expr-Keeps (Expr.explode_expr a b) = valued-Keeps (Expr.explode_expr a b)
  gen_expr-Keeps (Expr.eff_expr a b) = valued-Keeps (Expr.eff_expr a b)
  gen_expr-Keeps (Expr.infer_size_expr a) = valued-Keeps (Expr.infer_size_expr a)
  gen_expr-Keeps (Expr.access_expr a b c) = valued-Keeps (Expr.access_expr a b c)
  gen_expr-Keeps (Expr.cast_expr a b c) = valued-Keeps (Expr.cast_expr a b c)
  gen_expr-Keeps (Expr.test_expr a b c) = valued-Keeps (Expr.test_expr a b c)
  gen_expr-Keeps (Expr.prop_expr a b c) = valued-Keeps (Expr.prop_expr a b c)
  gen_expr-Keeps (Expr.agg_expr a b) = valued-Keeps (Expr.agg_expr a b)
  gen_expr-Keeps (Expr.typed_agg_expr a b c) = valued-Keeps (Expr.typed_agg_expr a b c)

  stored-Keeps :
      (r : Range) (o : StoreOp) (a v : Value)
      → Keeps (do
        old ← call (u.on.load a)
        res ← call (u.on.arithmetic o old v r)
        w ← needed res
        store_back u a w)
  stored-Keeps r o a v = Keeps-bind (Keeps-call (u.on.load a) (q.load a)) (λ old.
      Keeps-bind (Keeps-call (u.on.arithmetic o old v r) (q.arithmetic o old v r))
        (λ res. Keeps-bind (Keeps-needed res) (store_back-Keeps a)))

  assign_as-Keeps : (r : Range) (o : StoreOp) (a v : Value) → Keeps (assign_as u r o a v)
  unfolding assign_as
  assign_as-Keeps r StoreOp.wr a v = store_back-Keeps a v
  assign_as-Keeps r StoreOp.add a v = stored-Keeps r StoreOp.add a v
  assign_as-Keeps r StoreOp.sub a v = stored-Keeps r StoreOp.sub a v
  assign_as-Keeps r StoreOp.mul a v = stored-Keeps r StoreOp.mul a v
  assign_as-Keeps r StoreOp.div a v = stored-Keeps r StoreOp.div a v

  pub gen_assign-Keeps :
      (r : Range) (o : StoreOp) (dst src : Expr) → Keeps (gen_assign u r o dst src)
  unfolding gen_assign
  gen_assign-Keeps r o dst src = Keeps-bind (Keeps-call (u.on.gen_addr dst) (q.gen_addr dst)) (λ d.
      Keeps-bind (Keeps-needed d) (λ a. Keeps-bind (Keeps-read (deref a.type)) (λ t.
        Keeps-bind (Keeps-call (u.on.gen_value src (some t)) (q.gen_value src (some t))) (λ s.
          Keeps-bind (Keeps-needed s) (λ v.
            Keeps-if (is_atomic_kind (kind t)) (Keeps-report r Trouble.assign_to_atomic) (
              Keeps-if (differ (compatible u t v.type) v.type)
                (Keeps-report r Trouble.assign_mismatch) (assign_as-Keeps r o a v)))))))
