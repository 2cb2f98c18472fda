-- ===== src/Gen/Sorted.antt =====
-- What codegen of a node gives is what the node denotes by what the names stand for afterwards.
use rox.Gen.TypeGen.{ask, asked, extent_value, init_value}
use rox.Prelude.{List, [], ◌∷◌}
use rox.Gen.Leaves.{Leaves-tried}
use rox.Gen.TypeGen.{extent_value, init_value}
use rox.Types.{TypeKind}
use mathlib.Core.Path.{subst}
use rox.Gen.Extends.{Extends, Extends-trans}
use rox.Prelude.{Bool-cases, ◌%◌, ◌^◌, ◌≡◌, refl, inl, inr, Option, none, some, ℕ}
use rox.Ast.{
  expr_range, type_range, Attrs, Expr, AstType, Types, Elems, Args, Enums, IntKind, tuple_type,
  group_type, union_type, ident_type, varargs_type, ptr_type, array_type, slice_type, atom_type,
  enum_type, fn_type, args_type, no_elems, elem, named_elem, no_types, more_types, no_enums,
  enumerator, init_enumerator,
}
use rox.Gen.{or_null, unwrap, Bytes, CgType, Range, Declared, Surroundings, Gen}
use rox.Gen.TypeGen.{
  gen_effects, enum_field, gen_types, can_be_atomic, gen_elems, next_value, gen_args, plain,
  gen_atomic, gen_type, gen_enum, gen_enums, gen_extent, gen_init,
}
use rox.Const.{last_field, ConstFields, int_const, to_uint, Const}
use rox.Gen.Leaves.{
  Named-Extends, Leaves-null, Leaves-weaken, Leaves-after, Leaves-error, Leaves-pure, leaves_broken,
  Named, Leaves, IsSolved,
}
use rox.Eval.{eval}
use rox.Gen.Denotes.{
  EffectsDenote, TypesDenote, ElemsDenote, ArgsDenote, effects-widen, Denotes-widen, args-widen,
  Counts, Denotes,
}
use rox.Types.Make.{make_array, make_atomic, make_enum}

-- An extent is the value of an integer constant, cut off to 64 bits.
abbrev Extent : Surroundings → Expr → ℕ → Declared → Type 0
Extent env e m s =
    (q : Range) × (k : IntKind) × (n : ℕ) × (eval env.known e ≡ some (int_const q k n))
    × (n % 2 ^ 64 ≡ m)

abbrev Initial : Surroundings → Expr → ℕ → Declared → Type 0
Initial env e w s =
    (c : Const) × (eval env.known e ≡ some c) × (to_uint env.known.of_float 128 c ≡ some w)

module _ (env : Surroundings) where
  extent_value-Extent :
      (e : Expr) (o : Option Const) (s : Declared)
      → IsSolved env s
      → eval env.known e ≡ o
      → Leaves env (Extent env e) s (extent_value env (expr_range e) o s)
  unfolding to_uint
  extent_value-Extent e none s k h = Leaves-error _ _ s k
  extent_value-Extent e (some (int_const q j n)) s k h =
      Leaves-pure (n % 2 ^ 64) s k (q, j, n, h, refl)
  extent_value-Extent e (some (Const.no_const _)) s k h = Leaves-error _ _ s k
  extent_value-Extent e (some (Const.bool_const _ _ _)) s k h = Leaves-error _ _ s k
  extent_value-Extent e (some (Const.flt_const _ _ _)) s k h = Leaves-error _ _ s k
  extent_value-Extent e (some (Const.string_const _ _)) s k h = Leaves-error _ _ s k
  extent_value-Extent e (some (Const.tuple_const _ _ _ _)) s k h = Leaves-error _ _ s k
  extent_value-Extent e (some (Const.array_const _ _ _)) s k h = Leaves-error _ _ s k

  unwrapped-Initial :
      (e : Expr) (c : Const) (o : Option ℕ) (s : Declared)
      → IsSolved env s
      → eval env.known e ≡ some c
      → to_uint env.known.of_float 128 c ≡ o
      → Leaves env (Initial env e) s (unwrap o s)
  unwrapped-Initial e c none s k h g = leaves_broken
  unwrapped-Initial e c (some w) s k h g = Leaves-pure w s k (c, h, g)

  init_value-Initial :
      (e : Expr) (o : Option Const) (s : Declared)
      → IsSolved env s
      → eval env.known e ≡ o
      → Leaves env (Initial env e) s (init_value env (expr_range e) o s)
  init_value-Initial e none s k h = Leaves-error _ _ s k
  init_value-Initial e (some c) s k h =
      unwrapped-Initial e c (to_uint env.known.of_float 128 c) s k h refl

  enum_made :
      (o : Option CgType) (r : Range) (es : Enums) (at : Attrs) (n : Option Bytes)
      (fs : ConstFields) (s : Declared)
      → IsSolved env s
      → Counts env r es 0 fs
      → make_enum (plain TypeKind.u64 8) fs n ≡ o
      → Leaves env (λ u t. Denotes (Named t) env (enum_type r es at) n u) s (or_null o s)
  enum_made none r es at n fs s k c h = Leaves-null s k
  enum_made (some u) r es at n fs s k c h = Leaves-pure u s k (Denotes.enum r es at n fs u c h)

  gen_atomic-Denotes :
      (r : Range) (t : AstType) (at : Attrs) (u : CgType) (n : Option Bytes) (s : Declared)
      → IsSolved env s
      → Denotes (Named s) env t none u
      → Leaves env
          (λ w s'. Denotes (Named s') env (atom_type r t at) n w)
          s
          (gen_atomic (type_range t) u n s)
  gen_atomic-Denotes r t at u n s k d = elim (Bool-cases (can_be_atomic u)) [
    | inl e ↦ rw e (Leaves-pure (make_atomic u n) s k (Denotes.atom r t at n u d e))
    | inr e ↦ rw e (Leaves-error _ _ s k)
  ]

  module _ (look : Range → Bytes → Gen CgType)
      (look-Named : (r : Range) (x : Bytes) (s : Declared)
        → IsSolved env s
        → Leaves env (λ u t. Named t x u) s (look r x s)) where
    pub ask-Leaves :
        (xs : List (Range × Bytes)) (s : Declared)
        → IsSolved env s
        → Leaves env (λ a t. Unit {0}) s (ask look xs s)
    unfolding ask
    ask-Leaves [] s k = Leaves-pure tt s k tt
    ask-Leaves ((q, x) ∷ xs) s k =
        Leaves-after _ (look-Named q x s k) (λ u t e l n. ask-Leaves xs t l)

    gen_extent-Extent :
        (e : Expr) (s : Declared)
        → IsSolved env s
        → Leaves env (Extent env e) s (gen_extent look env e s)
    unfolding gen_extent
    gen_extent-Extent e s k =
        Leaves-tried _ _ (ask-Leaves (asked env.known e) s k)
          (λ t l. extent_value-Extent e (eval env.known e) t l refl) (λ t l. Leaves-error _ _ t l)

    gen_init-Initial :
        (e : Expr) (s : Declared)
        → IsSolved env s
        → Leaves env (Initial env e) s (gen_init look env e s)
    unfolding gen_init
    gen_init-Initial e s k = elim (Bool-cases (env.infers e)) [
      | inl i ↦ rw i (
          Leaves-tried _ _ (ask-Leaves (asked env.known e) s k)
            (λ t l. init_value-Initial e (eval env.known e) t l refl) (λ t l. Leaves-error _ _ t l))
      | inr i ↦ rw i (Leaves-error _ _ s k)
    ]

    gen_enums-Counts :
        (r : Range) (es : Enums) (v : ℕ) (s : Declared)
        → IsSolved env s
        → Leaves env (λ fs t. Counts env r es v fs) s (gen_enums look env r es v s)
    unfolding gen_enums
    gen_enums-Counts r no_enums v s k = Leaves-pure last_field s k (Counts.no_more v)
    gen_enums-Counts r (enumerator n es) v s k =
        Leaves-after _ (gen_enums-Counts r es (next_value v) s k)
          (λ fs t e l c. Leaves-pure (enum_field r n v fs) t l (Counts.next n es v fs c))
    gen_enums-Counts r (init_enumerator n x es) v s k =
        Leaves-after _ (gen_init-Initial x s k) (λ w s' e k' i.
          Leaves-after _ (gen_enums-Counts r es (next_value w) s' k') (λ fs t f l c.
            Leaves-pure (enum_field r n w fs) t l (Counts.own n x es v w i.0 fs i.1 i.2 c)))

    gen_enum-Denotes :
        (r : Range) (es : Enums) (at : Attrs) (n : Option Bytes) (s : Declared)
        → IsSolved env s
        → Leaves env
            (λ u t. Denotes (Named t) env (enum_type r es at) n u)
            s
            (gen_enum look env r es n s)
    unfolding gen_enum
    gen_enum-Denotes r no_enums at n s k = Leaves-error _ _ s k
    gen_enum-Denotes r (enumerator x es) at n s k =
        Leaves-after _ (gen_enums-Counts r (enumerator x es) 0 s k)
          (λ fs t e l c. enum_made _ r (enumerator x es) at n fs t l c refl)
    gen_enum-Denotes r (init_enumerator x i es) at n s k =
        Leaves-after _ (gen_enums-Counts r (init_enumerator x i es) 0 s k)
          (λ fs t e l c. enum_made _ r (init_enumerator x i es) at n fs t l c refl)

    later :
        {s s' : Declared} (t : AstType) (n : Option Bytes) (u : CgType)
        → Extends s s'
        → Denotes (Named s) env t n u
        → Denotes (Named s') env t n u
    later t n u e d = Denotes-widen env (Named-Extends e) t n u d

    mutual
      unfolding gen_type gen_args gen_elems gen_types gen_effects

      pub gen_type-Denotes :
          (t : AstType) (n : Option Bytes) (s : Declared)
          → IsSolved env s
          → Leaves env (λ u s'. Denotes (Named s') env t n u) s (gen_type look env t n s)
      gen_type-Denotes (tuple_type r es at) n s k =
          Leaves-after _ (elems-Denote es s k)
            (λ p t e l d. Leaves-pure _ t l (Denotes.tuple r es at n p d))
      gen_type-Denotes (group_type r t) n s k =
          Leaves-weaken (λ u s' d. Denotes.group r t n u d) (gen_type-Denotes t n s k)
      gen_type-Denotes (union_type r ts at) n s k =
          Leaves-after _ (types-Denote ts s k)
            (λ us t e l d. Leaves-pure _ t l (Denotes.union r ts at n us d))
      gen_type-Denotes (ident_type r x at) n s k =
          Leaves-weaken (λ u s' h. Denotes.ident r x at n u h) (look-Named r x s k)
      gen_type-Denotes (varargs_type r at) n s k = Leaves-null s k
      gen_type-Denotes (ptr_type r t at) n s k =
          Leaves-after _ (gen_type-Denotes t none s k)
            (λ u s' e l d. Leaves-pure _ s' l (Denotes.ptr r t at n u d))
      gen_type-Denotes (array_type r t x at) n s k =
          Leaves-after _ (gen_type-Denotes t none s k) (λ u s' e l d.
            Leaves-after _ (gen_extent-Extent x s' l) (λ m s'' f l' c.
              Leaves-pure (make_array u m n) s'' l' (
                subst (λ m. Denotes (Named s'') env (array_type r t x at) n (make_array u m n)) c.4
                  (Denotes.array r t x at n u c.0 c.1 c.2 (later t none u f d) c.3))))
      gen_type-Denotes (slice_type r t at) n s k =
          Leaves-after _ (gen_type-Denotes t none s k)
            (λ u s' e l d. Leaves-pure _ s' l (Denotes.slice r t at n u d))
      gen_type-Denotes (atom_type r t at) n s k =
          Leaves-after _ (gen_type-Denotes t none s k)
            (λ u s' e l d. gen_atomic-Denotes r t at u n s' l d)
      gen_type-Denotes (enum_type r es at) n s k = gen_enum-Denotes r es at n s k
      gen_type-Denotes (fn_type r os bs es t at) n s k =
          Leaves-after _ (args-Denote os s k) (λ o s1 e1 k1 d1.
            Leaves-after _ (args-Denote bs s1 k1) (λ a s2 e2 k2 d2.
              Leaves-after _ (effects-Denote es s2 k2) (λ e s3 e3 k3 d3.
                Leaves-after _ (gen_type-Denotes t none s3 k3) (λ u s4 e4 k4 d4.
                  Leaves-pure _ s4 k4 (
                    Denotes.fn r os bs es t at n o a u e
                      (args-widen env (Named-Extends (Extends-trans e2 (Extends-trans e3 e4))) os o
                        d1)
                      (args-widen env (Named-Extends (Extends-trans e3 e4)) bs a d2)
                      (effects-widen env (Named-Extends e4) es e d3) d4)))))

      pub args-Denote :
          (a : Args) (s : Declared)
          → IsSolved env s
          → Leaves env (λ u s'. ArgsDenote (Named s') env a u) s (gen_args look env a s)
      args-Denote (args_type r es) s k =
          Leaves-after _ (elems-Denote es s k)
            (λ p t e l d. Leaves-pure _ t l (ArgsDenote.args r es p d))

      pub elems-Denote :
          (es : Elems) (s : Declared)
          → IsSolved env s
          → Leaves env (λ p s'. ElemsDenote (Named s') env es p) s (gen_elems look env es s)
      elems-Denote no_elems s k = Leaves-pure _ s k ElemsDenote.no_elem
      elems-Denote (elem t es) s k = Leaves-after _ (gen_type-Denotes t none s k) (λ u s1 e1 k1 d.
          Leaves-after _ (elems-Denote es s1 k1) (λ p s2 e2 k2 ds.
            Leaves-pure _ s2 k2 (ElemsDenote.an_elem t es u p (later t none u e2 d) ds)))
      elems-Denote (named_elem x t es) s k =
          Leaves-after _ (gen_type-Denotes t none s k) (λ u s1 e1 k1 d.
            Leaves-after _ (elems-Denote es s1 k1) (λ p s2 e2 k2 ds.
              Leaves-pure _ s2 k2 (ElemsDenote.a_named_elem x t es u p (later t none u e2 d) ds)))

      pub types-Denote :
          (ts : Types) (s : Declared)
          → IsSolved env s
          → Leaves env (λ us s'. TypesDenote (Named s') env ts us) s (gen_types look env ts s)
      types-Denote no_types s k = Leaves-pure _ s k TypesDenote.no_type
      types-Denote (more_types t ts) s k =
          Leaves-after _ (gen_type-Denotes t none s k) (λ u s1 e1 k1 d.
            Leaves-after _ (types-Denote ts s1 k1) (λ us s2 e2 k2 ds.
              Leaves-pure _ s2 k2 (TypesDenote.a_type t ts u us (later t none u e2 d) ds)))

      pub effects-Denote :
          (ts : Types) (s : Declared)
          → IsSolved env s
          → Leaves env (λ p s'. EffectsDenote (Named s') env ts p) s (gen_effects look env ts s)
      effects-Denote no_types s k = Leaves-pure _ s k EffectsDenote.no_effect
      effects-Denote (more_types t ts) s k =
          Leaves-after _ (gen_type-Denotes t none s k) (λ u s1 e1 k1 d.
            Leaves-after _ (effects-Denote ts s1 k1) (λ p s2 e2 k2 ds.
              Leaves-pure _ s2 k2 (EffectsDenote.an_effect t ts u p (later t none u e2 d) ds)))
