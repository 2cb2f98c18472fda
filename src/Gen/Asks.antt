-- ===== src/Gen/Asks.antt =====
-- Which names an expression asks for with `of` while it is evaluated.
use rox.Types.Same.Whole.{both}
use rox.Prelude.{
  All, ◌≡◌, refl, Bool, true, false, Option, none, some, List, [], ◌∷◌, ltb, ◌&&◌, ◌||◌, ◌++◌, ℕ,
}
use rox.Ast.{
  Expr, Exprs, Enums, tuple_expr, agg_expr, typed_agg_expr, var_expr, int_expr, flt_expr, str_expr,
  bool_expr, bin_expr, lbin_expr, unary_expr, index_expr, cast_expr, prop_expr, no_exprs,
  more_exprs, no_enums, enumerator, init_enumerator,
}
use rox.Lexer.Char.{Bytes}
use rox.Lexer.Token.{Range}
use rox.Types.{CgType}
use rox.Const.{Const}
use rox.Eval.{Known, eval}
use rox.Gen.{find_type}
use rox.Gen.TypeGen.{builtins, asked, asked_all, go_on}

abbrev pub found : Option CgType → Bool
found none = false
found (some u) = true

-- A name is builtin or ranked below a bound.
unfoldable pub ranked : (Bytes → ℕ) → ℕ → Bytes → Bool
ranked rank m x = found (find_type builtins x) || ltb (rank x) m

-- An expression of literals and operators: neither its value nor its type asks for a type by name.
unfoldable mutual
  pub asks_nothing : Expr → Bool
  asks_nothing (tuple_expr r es) = all_ask_nothing es
  asks_nothing (int_expr r k n) = true
  asks_nothing (flt_expr r k x) = true
  asks_nothing (str_expr r s) = true
  asks_nothing (bool_expr r b) = true
  asks_nothing (bin_expr r o x y) = asks_nothing x && asks_nothing y
  asks_nothing (lbin_expr r o x y) = asks_nothing x && asks_nothing y
  asks_nothing (unary_expr r o x) = asks_nothing x
  asks_nothing _ = false

  pub all_ask_nothing : Exprs → Bool
  all_ask_nothing no_exprs = true
  all_ask_nothing (more_exprs e es) = asks_nothing e && all_ask_nothing es

unfoldable pub enums_ask_nothing : Enums → Bool
unfolding asks_nothing
enums_ask_nothing no_enums = true
enums_ask_nothing (enumerator n es) = enums_ask_nothing es
enums_ask_nothing (init_enumerator n e es) = asks_nothing e && enums_ask_nothing es

-- `of` is asked about names only, each of them builtin or ranked below a bound.
unfoldable mutual
  pub below_expr : (Bytes → ℕ) → ℕ → Expr → Bool
  below_expr rank m (tuple_expr r es) = all_below rank m es
  below_expr rank m (agg_expr r es) = all_below rank m es
  below_expr rank m (typed_agg_expr r t es) = all_below rank m es
  below_expr rank m (bin_expr r o x y) = below_expr rank m x && below_expr rank m y
  below_expr rank m (lbin_expr r o x y) = below_expr rank m x && below_expr rank m y
  below_expr rank m (index_expr r x y) = below_expr rank m x && below_expr rank m y
  below_expr rank m (cast_expr r x t) = below_expr rank m x
  below_expr rank m (prop_expr r p (var_expr q x)) = ranked rank m x
  below_expr rank m (prop_expr r p _) = false
  below_expr rank m _ = true

  pub all_below : (Bytes → ℕ) → ℕ → Exprs → Bool
  all_below rank m no_exprs = true
  all_below rank m (more_exprs e es) = below_expr rank m e && all_below rank m es

abbrev pub AllRanked : (Bytes → ℕ) → ℕ → List (Range × Bytes) → Type 0
AllRanked rank m xs = All (λ p. ranked rank m p.1 ≡ true) xs

both_lists :
    (rank : Bytes → ℕ) (m : ℕ) (xs ys : List (Range × Bytes))
    → AllRanked rank m xs
    → AllRanked rank m ys
    → AllRanked rank m (xs ++ ys)
both_lists rank m [] ys a b = b
both_lists rank m (x ∷ xs) ys a b = (a.0, both_lists rank m xs ys a.1 b)

gone_on :
    (rank : Bytes → ℕ) (m : ℕ) (o : Option Const) (xs : List (Range × Bytes))
    → AllRanked rank m xs
    → AllRanked rank m (go_on o xs)
gone_on rank m none xs a = tt
gone_on rank m (some c) xs a = a

no_more_asked :
    (o : Option Const) (xs ys : List (Range × Bytes)) → xs ≡ [] → ys ≡ [] → xs ++ go_on o ys ≡ []
no_more_asked none xs ys h k = rw h refl
no_more_asked (some c) xs ys h k = rw (h, k) refl

mutual
  unfolding asks_nothing all_ask_nothing asked asked_all

  pub asked_nothing : (k : Known) (e : Expr) → asks_nothing e ≡ true → asked k e ≡ []
  asked_nothing k (tuple_expr r es) h = all_asked_nothing k es h
  asked_nothing k (int_expr r j n) h = refl
  asked_nothing k (flt_expr r j x) h = refl
  asked_nothing k (str_expr r s) h = refl
  asked_nothing k (bool_expr r b) h = refl
  asked_nothing k (bin_expr r o x y) h =
      let (a, b) = both (asks_nothing x) (asks_nothing y) h in
      no_more_asked (eval k x) _ _ (asked_nothing k x a) (asked_nothing k y b)
  asked_nothing k (lbin_expr r o x y) h =
      let (a, b) = both (asks_nothing x) (asks_nothing y) h in
      no_more_asked (eval k x) _ _ (asked_nothing k x a) (asked_nothing k y b)
  asked_nothing k (unary_expr r o x) h = refl
  asked_nothing k _ h = absurd (cc h)

  all_asked_nothing : (k : Known) (es : Exprs) → all_ask_nothing es ≡ true → asked_all k es ≡ []
  all_asked_nothing k no_exprs h = refl
  all_asked_nothing k (more_exprs e es) h =
      let (a, b) = both (asks_nothing e) (all_ask_nothing es) h in
      no_more_asked (eval k e) _ _ (asked_nothing k e a) (all_asked_nothing k es b)

module _ (rank : Bytes → ℕ) (m : ℕ) where
  mutual
    unfolding below_expr all_below asked asked_all

    pub asked-AllRanked :
        (k : Known) (e : Expr) → below_expr rank m e ≡ true → AllRanked rank m (asked k e)
    asked-AllRanked k (tuple_expr r es) h = all_asked-AllRanked k es h
    asked-AllRanked k (agg_expr r es) h = all_asked-AllRanked k es h
    asked-AllRanked k (typed_agg_expr r t es) h = all_asked-AllRanked k es h
    asked-AllRanked k (bin_expr r o x y) h =
        let (a, b) = both (below_expr rank m x) (below_expr rank m y) h in
        both_lists rank m (asked k x) _ (asked-AllRanked k x a)
          (gone_on rank m (eval k x) _ (asked-AllRanked k y b))
    asked-AllRanked k (lbin_expr r o x y) h =
        let (a, b) = both (below_expr rank m x) (below_expr rank m y) h in
        both_lists rank m (asked k x) _ (asked-AllRanked k x a)
          (gone_on rank m (eval k x) _ (asked-AllRanked k y b))
    asked-AllRanked k (index_expr r x y) h =
        let (a, b) = both (below_expr rank m x) (below_expr rank m y) h in
        both_lists rank m (asked k x) _ (asked-AllRanked k x a)
          (gone_on rank m (eval k x) _ (asked-AllRanked k y b))
    asked-AllRanked k (cast_expr r x t) h = asked-AllRanked k x h
    asked-AllRanked k (prop_expr r p (var_expr q x)) h = (h, tt)
    asked-AllRanked k (prop_expr r p _) h = absurd (cc h)
    asked-AllRanked k _ h = tt

    all_asked-AllRanked :
        (k : Known) (es : Exprs) → all_below rank m es ≡ true → AllRanked rank m (asked_all k es)
    all_asked-AllRanked k no_exprs h = tt
    all_asked-AllRanked k (more_exprs e es) h =
        let (a, b) = both (below_expr rank m e) (all_below rank m es) h in
        both_lists rank m (asked k e) _ (asked-AllRanked k e a)
          (gone_on rank m (eval k e) _ (all_asked-AllRanked k es b))
