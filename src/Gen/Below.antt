-- ===== src/Gen/Below.antt =====
-- `codegen` of the nodes of types, where a bound on the ranks of the names in them is known.
use rox.Gen.Asks.{ranked, AllRanked, below_expr, enums_ask_nothing, asked-AllRanked}
use rox.Gen.TypeGen.{asked, ask, gen_extent}
use rox.Gen.Sorted.{ask-Leaves}
use rox.Gen.Ends.{extent_value-Ends, Ends-tried}
use rox.Prelude.{List, [], ◌∷◌}
use rox.Eval.{eval}
use rox.Ast.{Expr, expr_range}
use rox.Ast.{Expr}
use rox.Prelude.{◌≡◌, Bool, true, Option, none, ◌&&◌, ℕ}
use rox.Ast.{
  AstType, Types, Elems, Args, tuple_type, group_type, union_type, ident_type, varargs_type,
  ptr_type, array_type, slice_type, atom_type, enum_type, fn_type, args_type, no_elems, elem,
  named_elem, no_types, more_types, type_range,
}
use rox.Lexer.Char.{Bytes}
use rox.Lexer.Token.{Range}
use rox.Types.{CgType}
use rox.Types.Same.Whole.{both}
use rox.Gen.{Declared, Surroundings, Gen}
use rox.Gen.TypeGen.{gen_type, gen_args, gen_elems, gen_types, gen_effects}
use rox.Gen.Leaves.{Named, Leaves, IsSolved}
use rox.Gen.Sorted.{gen_type-Denotes, args-Denote, effects-Denote}
use rox.Gen.Ends.{
  Ends, ends_made, ends_failed, Ends-then, Ends-after, gen_enum-Ends, gen_atomic-Ends,
}

-- Every name in a type is, those that extents ask for too, and enumerators ask for none.
unfoldable mutual
  pub below : (Bytes → ℕ) → ℕ → AstType → Bool
  below rank m (tuple_type r es at) = below_elems rank m es
  below rank m (group_type r t) = below rank m t
  below rank m (union_type r ts at) = below_types rank m ts
  below rank m (ident_type r x at) = ranked rank m x
  below rank m (varargs_type r at) = true
  below rank m (ptr_type r t at) = below rank m t
  below rank m (array_type r t e at) = below rank m t && below_expr rank m e
  below rank m (slice_type r t at) = below rank m t
  below rank m (atom_type r t at) = below rank m t
  below rank m (enum_type r es at) = enums_ask_nothing es
  below rank m (fn_type r objs args effects ret at) =
      below_args rank m objs
      && (below_args rank m args && (below_types rank m effects && below rank m ret))

  below_args : (Bytes → ℕ) → ℕ → Args → Bool
  below_args rank m (args_type r es) = below_elems rank m es

  pub below_elems : (Bytes → ℕ) → ℕ → Elems → Bool
  below_elems rank m no_elems = true
  below_elems rank m (elem t es) = below rank m t && below_elems rank m es
  below_elems rank m (named_elem x t es) = below rank m t && below_elems rank m es

  below_types : (Bytes → ℕ) → ℕ → Types → Bool
  below_types rank m no_types = true
  below_types rank m (more_types t ts) = below rank m t && below_types rank m ts

module _ (env : Surroundings) (look : Range → Bytes → Gen CgType)
    (look-Named : (r : Range) (x : Bytes) (s : Declared)
      → IsSolved env s
      → Leaves env (λ u t. Named t x u) s (look r x s))
    (rank : Bytes → ℕ) (m : ℕ)
    (look-Ends : (r : Range) (x : Bytes) (s : Declared)
      → IsSolved env s
      → ranked rank m x ≡ true
      → Ends (look r x s)) where
  ask-Ends :
      (xs : List (Range × Bytes)) (s : Declared)
      → IsSolved env s
      → AllRanked rank m xs
      → Ends (ask look xs s)
  unfolding ask
  ask-Ends [] s k a = ends_made tt s
  ask-Ends ((q, x) ∷ xs) s k a =
      Ends-after _ (look-Named q x s k) (look-Ends q x s k a.0) (λ u t l n. ask-Ends xs t l a.1)

  gen_extent-Ends :
      (e : Expr) (s : Declared)
      → IsSolved env s
      → below_expr rank m e ≡ true
      → Ends (gen_extent look env e s)
  unfolding gen_extent
  gen_extent-Ends e s k h =
      Ends-tried _ _ (ask-Leaves env look look-Named (asked env.known e) s k)
        (ask-Ends (asked env.known e) s k (asked-AllRanked rank m env.known e h))
        (λ y t l n. extent_value-Ends env (expr_range e) (eval env.known e) t)
        (λ t l. ends_failed _)

  mutual
    unfolding gen_type gen_args gen_elems gen_types gen_effects below below_args below_elems
        below_types

    pub gen_type-Ends :
        (t : AstType) (n : Option Bytes) (s : Declared)
        → IsSolved env s
        → below rank m t ≡ true
        → Ends (gen_type look env t n s)
    gen_type-Ends (tuple_type r es at) n s k h =
        Ends-then _ (elems-Ends es s k h) (λ p t. ends_made _ t)
    gen_type-Ends (group_type r t) n s k h = gen_type-Ends t n s k h
    gen_type-Ends (union_type r ts at) n s k h =
        Ends-then _ (types-Ends ts s k h) (λ us t. ends_made _ t)
    gen_type-Ends (ident_type r x at) n s k h = look-Ends r x s k h
    gen_type-Ends (varargs_type r at) n s k h = ends_failed s
    gen_type-Ends (ptr_type r t at) n s k h =
        Ends-then _ (gen_type-Ends t none s k h) (λ u t'. ends_made _ t')
    gen_type-Ends (array_type r t e at) n s k h =
        let (h1, h2) = both (below rank m t) (below_expr rank m e) h in
        Ends-after _ (gen_type-Denotes env look look-Named t none s k) (gen_type-Ends t none s k h1)
          (λ u t' l d. Ends-then _ (gen_extent-Ends e t' l h2) (λ x t''. ends_made _ t''))
    gen_type-Ends (slice_type r t at) n s k h =
        Ends-then _ (gen_type-Ends t none s k h) (λ u t'. ends_made _ t')
    gen_type-Ends (atom_type r t at) n s k h =
        Ends-then _ (gen_type-Ends t none s k h) (λ u t'. gen_atomic-Ends env (type_range t) u n t')
    gen_type-Ends (enum_type r es at) n s k h = gen_enum-Ends env look r es n s h
    gen_type-Ends (fn_type r os bs es t at) n s k h =
        let (h1, h') =
          both (below_args rank m os)
            (below_args rank m bs && (below_types rank m es && below rank m t)) h in
        let (h2, h'') = both (below_args rank m bs) (below_types rank m es && below rank m t) h' in
        let (h3, h4) = both (below_types rank m es) (below rank m t) h'' in
        Ends-after _ (args-Denote env look look-Named os s k) (args-Ends os s k h1) (λ o s1 k1 d1.
          Ends-after _ (args-Denote env look look-Named bs s1 k1) (args-Ends bs s1 k1 h2)
            (λ a s2 k2 d2.
              Ends-after _ (effects-Denote env look look-Named es s2 k2) (effects-Ends es s2 k2 h3)
                (λ e s3 k3 d3.
                  Ends-then _ (gen_type-Ends t none s3 k3 h4) (λ u s4. ends_made _ s4))))

    args-Ends :
        (a : Args) (s : Declared)
        → IsSolved env s
        → below_args rank m a ≡ true
        → Ends (gen_args look env a s)
    args-Ends (args_type r es) s k h = Ends-then _ (elems-Ends es s k h) (λ p t. ends_made _ t)

    elems-Ends :
        (es : Elems) (s : Declared)
        → IsSolved env s
        → below_elems rank m es ≡ true
        → Ends (gen_elems look env es s)
    elems-Ends no_elems s k h = ends_made _ s
    elems-Ends (elem t es) s k h =
        let (h1, h2) = both (below rank m t) (below_elems rank m es) h in
        Ends-after _ (gen_type-Denotes env look look-Named t none s k) (gen_type-Ends t none s k h1)
          (λ u s1 k1 d. Ends-then _ (elems-Ends es s1 k1 h2) (λ p s2. ends_made _ s2))
    elems-Ends (named_elem x t es) s k h =
        let (h1, h2) = both (below rank m t) (below_elems rank m es) h in
        Ends-after _ (gen_type-Denotes env look look-Named t none s k) (gen_type-Ends t none s k h1)
          (λ u s1 k1 d. Ends-then _ (elems-Ends es s1 k1 h2) (λ p s2. ends_made _ s2))

    types-Ends :
        (ts : Types) (s : Declared)
        → IsSolved env s
        → below_types rank m ts ≡ true
        → Ends (gen_types look env ts s)
    types-Ends no_types s k h = ends_made _ s
    types-Ends (more_types t ts) s k h =
        let (h1, h2) = both (below rank m t) (below_types rank m ts) h in
        Ends-after _ (gen_type-Denotes env look look-Named t none s k) (gen_type-Ends t none s k h1)
          (λ u s1 k1 d. Ends-then _ (types-Ends ts s1 k1 h2) (λ p s2. ends_made _ s2))

    effects-Ends :
        (ts : Types) (s : Declared)
        → IsSolved env s
        → below_types rank m ts ≡ true
        → Ends (gen_effects look env ts s)
    effects-Ends no_types s k h = ends_made _ s
    effects-Ends (more_types t ts) s k h =
        let (h1, h2) = both (below rank m t) (below_types rank m ts) h in
        Ends-after _ (gen_type-Denotes env look look-Named t none s k) (gen_type-Ends t none s k h1)
          (λ u s1 k1 d. Ends-then _ (effects-Ends ts s1 k1 h2) (λ p s2. ends_made _ s2))
