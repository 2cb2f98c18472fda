-- ===== src/Parser/EnoughFns.antt =====
-- The fuel that function types, attributes and unions take.
use rox.Parser.Enough.{Runs, Fits, Drops}
use rox.Parser.EnoughTypes.{
  parse_ident_type-Drop, parse_varargs_type-Drop, only_arg-Down, union_of-Down,
  parse_tuple_type-Drops, parse_args_type-Drops, parse_group_type-Drops, parse_ptr_type-Drops,
  parse_atom_type-Runs, parse_bracket_type-Drops,
}
use rox.Prelude.{suc, ℕ, ◌*◌, ◌≤◌, ◌≡◌, refl, sym, ap, false, arith}
use rox.Ast.{AstType, Attrs, no_attrs}
use rox.Lexer.Token.{Kind, is_end}
use rox.Parser.State.{Parser, M, ◌>>=◌}
use rox.Parser.Calls.{Calls}
use rox.Parser.Precedence.{at_kind}
use rox.Parser.Ends.{
  live, Ends, Down, Drop, Ends-Down, Ends-bind, Ends-branch, Ends-when, Ends-take, next-Drop,
  expect-Drop, peek-IsPeeked, IsPeeked,
}
use rox.Parser.EnoughExprs.{parse_tuple_expr-Drops}
use rox.Parser.TypeExpr.{
  type_case, at_case, after_member, parse_attrs, parse_attr, parse_fn_type, parse_ret,
  parse_objs_args, parse_effects, type_turn, type_loop_turn, effects_turn, attrs_turn, known_attr,
}

module _ (fuel : ℕ) (c : Calls) (g : Fits fuel c) where
  pub effects_turn-Runs : Runs (suc fuel) 0 (effects_turn c)
  unfolding effects_turn is_end
  effects_turn-Runs s h =
      Ends-when (Down s) Kind.gt refl _ _ s (λ s1 e k. omega arith)
        λ s1 k. Ends-bind (Down s) (Drop s1) _ _ s1 (parse_ident_type-Drop no_attrs s1) λ t s2 d.
          Ends-take (Down s) Kind.comma refl _ _ s2
            (λ s3 x.
              Ends-bind (Down s) (Down s3) _ _ s3 (g.effects s3 (omega arith))
                λ es s4 z. omega arith)
            (λ s3 x. omega arith)

  -- Nothing of rank one is called before a token is taken.
  pub parse_effects-Runs : Runs fuel 1 (parse_effects c)
  unfolding parse_effects is_end
  parse_effects-Runs s h =
      Ends-take (Down s) Kind.lt refl _ _ s
        (λ s1 x. Ends-bind (Down s) (Down s1) _ _ s1 (g.effects s1 (omega arith)) λ es s2 y.
          Ends-bind (Down s) (Drop s2) _ _ s2 (expect-Drop Kind.gt _ s2 refl) λ t s3 z. omega arith)
        (λ s1 x. omega arith)

  parse_objs_args-Drops : Drops fuel (parse_objs_args c)
  unfolding parse_objs_args is_end
  parse_objs_args-Drops s h =
      Ends-bind (Drop s) (Drop s) _ _ s (parse_args_type-Drops fuel c g s h) λ a s1 d.
        Ends-when (Drop s) Kind.lparen refl _ _ s1
          (λ s2 k x.
            Ends-bind (Drop s) (Drop s2) _ _ s2 (parse_args_type-Drops fuel c g s2 (omega arith))
              λ b s3 y. omega arith)
          (λ s2 x. omega arith)

  pub parse_ret-Runs : Runs fuel 1 (parse_ret c)
  unfolding parse_ret is_end
  parse_ret-Runs s h =
      Ends-take (Down s) Kind.arrow refl _ _ s
        (λ s1 x. Ends-Down s s1 _ (omega arith) (g.type s1 (omega arith))) (λ s1 x. omega arith)

  parse_fn_type-Drops : (a : Attrs) → Drops fuel (parse_fn_type c a)
  unfolding parse_fn_type is_end
  parse_fn_type-Drops a s h =
      Ends-bind (Drop s) (Drop s) _ _ s (expect-Drop Kind.kw_fn _ s refl) λ t s1 d.
        Ends-bind (Drop s) (Drop s1) _ _ s1 (parse_objs_args-Drops s1 (omega arith)) λ l s2 x.
          Ends-bind (Drop s) (Down s2) _ _ s2 (parse_effects-Runs s2 (omega arith)) λ e s3 y.
            Ends-bind (Drop s) (Down s3) _ _ s3 (parse_ret-Runs s3 (omega arith))
              λ r s4 z. omega arith

  parse_attr-Drops : Drops fuel (parse_attr c)
  unfolding parse_attr is_end
  parse_attr-Drops s h =
      Ends-bind (Drop s) (Drop s) _ _ s (expect-Drop Kind.ident _ s refl) λ t s1 d.
        Ends-branch (Drop s) (known_attr t.text) _ _ s1
          (λ b.
            Ends-bind (Drop s) (Drop s1) _ _ s1 (parse_tuple_expr-Drops fuel c g s1 (omega arith))
              λ args s2 x.
                Ends-bind (Drop s) (Down s2) _ _ s2 (only_arg-Down args s2) λ arg s3 y. omega arith)
          (λ b. tt)

  pub attrs_turn-Runs : Runs (suc fuel) 0 (attrs_turn c)
  unfolding attrs_turn is_end
  attrs_turn-Runs s h =
      Ends-when (Down s) Kind.rparen refl _ _ s (λ s1 e k. omega arith)
        λ s1 k. Ends-bind (Down s) (Drop s1) _ _ s1 (parse_attr-Drops s1 (omega arith)) λ t s2 d.
          Ends-take (Down s) Kind.comma refl _ _ s2
            (λ s3 x.
              Ends-bind (Down s) (Down s3) _ _ s3 (g.attrs s3 (omega arith)) λ es s4 z. omega arith)
            (λ s3 x. omega arith)

  pub parse_attrs-Drops : Drops fuel (parse_attrs c)
  unfolding parse_attrs is_end
  parse_attrs-Drops s h =
      Ends-bind (Drop s) (Drop s) _ _ s (expect-Drop Kind.lparen _ s refl) λ t s1 d.
        Ends-bind (Drop s) (Down s1) _ _ s1 (g.attrs s1 (omega arith)) λ es s2 x.
          Ends-bind (Drop s) (Drop s2) _ _ s2 (expect-Drop Kind.rparen _ s2 refl)
            λ t s3 y. omega arith

  after_member-Down :
      (a : Attrs) (t : AstType) (s : Parser)
      → 3 * live s.ahead ≤ fuel
      → Ends (Down s) (after_member c a t s)
  unfolding after_member is_end
  after_member-Down a t s h =
      Ends-take (Down s) Kind.bor refl _ _ s
        (λ s1 x.
          Ends-bind (Down s) (Down s1) _ _ s1 (g.types a s1 (omega arith)) λ r s2 y. omega arith)
        (λ s1 x. omega arith)

  -- A member that takes a token, and what is behind it.
  member-Down :
      (m : M AstType) (a : Attrs) (s : Parser)
      → 3 * live s.ahead ≤ fuel
      → Ends (Drop s) (m s)
      → Ends (Down s) ((m >>= λ t. after_member c a t) s)
  member-Down m a s h d =
      Ends-bind (Down s) (Drop s) _ _ s d
        λ t s1 x. Ends-Down s s1 _ (omega arith) (after_member-Down a t s1 (omega arith))

  at_case-Down :
      (a : Attrs) (s : Parser)
      → 3 * live s.ahead ≤ fuel
      → is_end (at_kind s) ≡ false
      → Ends (Down s) (at_case c a s)
  unfolding at_case is_end
  at_case-Down a s h k = Ends-bind (Down s) (Drop s) _ _ s (next-Drop s k) λ t s1 d.
      Ends-when (Down s) Kind.lparen refl _ _ s1
        (λ s2 l x.
          Ends-bind (Down s) (Drop s2) _ _ s2 (parse_attrs-Drops s2 (omega arith))
            λ b s3 y. Ends-Down s s3 _ (omega arith) (g.types b s3 (omega arith)))
        (λ s2 x.
          Ends-bind (Down s) (Down s2) _ _ s2 (parse_atom_type-Runs fuel c g a s2 (omega arith))
            λ u s3 y.
              Ends-Down s s3 _ (omega arith) (after_member-Down no_attrs u s3 (omega arith)))

  type_case-Down :
      (a : Attrs) (k : Kind) (s : Parser)
      → 3 * live s.ahead ≤ fuel
      → k ≡ at_kind s
      → Ends (Down s) (type_case c a k s)
  unfolding type_case is_end
  type_case-Down a Kind.ident s h k = member-Down _ no_attrs s h (parse_ident_type-Drop a s)
  type_case-Down a Kind.lbrace s h k =
      member-Down _ no_attrs s h (parse_tuple_type-Drops fuel c g a s h)
  type_case-Down a Kind.lparen s h k = member-Down _ a s h (parse_group_type-Drops fuel c g s h)
  type_case-Down a Kind.star s h k =
      member-Down _ no_attrs s h (parse_ptr_type-Drops fuel c g a s h)
  type_case-Down a Kind.at s h k = at_case-Down a s h (sym (ap is_end k))
  type_case-Down a Kind.lbracket s h k =
      member-Down _ no_attrs s h (parse_bracket_type-Drops fuel c g a s h)
  type_case-Down a Kind.kw_fn s h k = member-Down _ no_attrs s h (parse_fn_type-Drops a s h)
  type_case-Down a Kind.ellipsis s h k = member-Down _ no_attrs s h (parse_varargs_type-Drop a s)
  type_case-Down a _ s h k = tt

  pub type_loop_turn-Runs : (a : Attrs) → Runs (suc fuel) 0 (type_loop_turn c a)
  unfolding type_loop_turn
  type_loop_turn-Runs a s h = Ends-bind (Down s) (IsPeeked s) _ _ s (peek-IsPeeked s) λ t s1 p.
      Ends-Down s s1 _ (omega (arith, p.1)) (type_case-Down a t.kind s1 (omega (arith, p.1)) p.0)

  pub type_turn-Runs : Runs (suc fuel) 1 (type_turn c)
  unfolding type_turn
  type_turn-Runs s h =
      Ends-bind (Down s) (Down s) _ _ s (g.types no_attrs s (omega arith))
        λ ts s1 d. Ends-Down s s1 _ d (union_of-Down ts.0 ts.1 s1)
