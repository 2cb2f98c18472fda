-- ===== src/Parser/EnoughTypes.antt =====
-- The fuel that types and attributes take.
use rox.Parser.Enough.{Runs, Fits, Drops}
use rox.Prelude.{suc, ℕ, refl, arith}
use rox.Ast.{
  Expr, AstType, Types, Attrs, ident_type, tuple_expr, more_exprs, no_exprs, no_types, more_types,
}
use rox.Lexer.Token.{Kind, Range, is_end}
use rox.Parser.State.{Parser, is}
use rox.Parser.Calls.{Calls}
use rox.Parser.Ends.{
  Ends, Down, Drop, Ends-Down, Ends-Drop, Ends-bind, Ends-branch, Ends-when, Ends-take, next-Down,
  expect-Drop, peek-IsPeeked, IsPeeked,
}
use rox.Parser.TypeExpr.{
  union_of, only_arg, parse_bracket_type, bracket_case, parse_array, parse_enum, parse_atom_type,
  parse_ptr_type, parse_varargs_type, parse_group_type, parse_args_type, parse_tuple_type,
  parse_elem, elem_name, parse_ident_type, elems_turn, enums_turn,
}

pub parse_ident_type-Drop : (a : Attrs) (s : Parser) → Ends (Drop s) (parse_ident_type a s)
unfolding parse_ident_type is_end
parse_ident_type-Drop a s =
    Ends-bind (Drop s) (Drop s) _ _ s (expect-Drop Kind.ident _ s refl) λ t s1 d. d

pub parse_varargs_type-Drop : (a : Attrs) (s : Parser) → Ends (Drop s) (parse_varargs_type a s)
unfolding parse_varargs_type is_end
parse_varargs_type-Drop a s =
    Ends-bind (Drop s) (Drop s) _ _ s (expect-Drop Kind.ellipsis _ s refl) λ t s1 d. d

elem_name-Down : (t : AstType) (s : Parser) → Ends (Down s) (elem_name t s)
unfolding elem_name
elem_name-Down (ident_type _ name _) s = omega arith
elem_name-Down _ s = tt

pub only_arg-Down : (e : Expr) (s : Parser) → Ends (Down s) (only_arg e s)
unfolding only_arg
only_arg-Down (tuple_expr _ (more_exprs e no_exprs)) s = omega arith
only_arg-Down _ s = tt

pub union_of-Down : (ts : Types) (a : Attrs) (s : Parser) → Ends (Down s) (union_of ts a s)
unfolding union_of
union_of-Down no_types a s = tt
union_of-Down (more_types t no_types) a s = omega arith
union_of-Down (more_types t (more_types u ts)) a s = omega arith

module _ (fuel : ℕ) (c : Calls) (g : Fits fuel c) where
  parse_elem-Runs : Runs fuel 1 (parse_elem c)
  unfolding parse_elem is_end
  parse_elem-Runs s h = Ends-bind (Down s) (Down s) _ _ s (g.type s h) λ t s1 d.
      Ends-when (Down s) Kind.colon refl _ _ s1
        (λ s2 k x. Ends-bind (Down s) (Down s2) _ _ s2 (elem_name-Down t s2) λ n s3 y.
          Ends-bind (Down s) (Down s3) _ _ s3 (next-Down s3) λ u s4 z.
            Ends-bind (Down s) (Down s4) _ _ s4 (g.type s4 (omega arith)) λ v s5 w. omega arith)
        (λ s2 x. omega arith)

  pub elems_turn-Runs : (k : Kind) → Runs (suc fuel) 2 (elems_turn c k)
  unfolding elems_turn is_end
  elems_turn-Runs k s h = Ends-bind (Down s) (IsPeeked s) _ _ s (peek-IsPeeked s) λ t s1 p.
      Ends-branch (Down s) (is k t) _ _ s1 (λ b. omega (arith, p.1))
        λ b. Ends-bind (Down s) (Down s1) _ _ s1 (parse_elem-Runs s1 (omega (arith, p.1))) λ e s2 d.
          Ends-take (Down s) Kind.comma refl _ _ s2
            (λ s3 x.
              Ends-bind (Down s) (Down s3) _ _ s3 (g.elems k s3 (omega (arith, p.1)))
                λ es s4 z. omega (arith, p.1))
            (λ s3 x. omega (arith, p.1))

  pub parse_tuple_type-Drops : (a : Attrs) → Drops fuel (parse_tuple_type c a)
  unfolding parse_tuple_type is_end
  parse_tuple_type-Drops a s h =
      Ends-bind (Drop s) (Drop s) _ _ s (expect-Drop Kind.lbrace _ s refl) λ t s1 d.
        Ends-bind (Drop s) (Down s1) _ _ s1 (g.elems Kind.rbrace s1 (omega arith)) λ es s2 x.
          Ends-bind (Drop s) (Drop s2) _ _ s2 (expect-Drop Kind.rbrace _ s2 refl)
            λ t s3 y. omega arith

  pub parse_args_type-Drops : Drops fuel (parse_args_type c)
  unfolding parse_args_type is_end
  parse_args_type-Drops s h =
      Ends-bind (Drop s) (Drop s) _ _ s (expect-Drop Kind.lparen _ s refl) λ t s1 d.
        Ends-bind (Drop s) (Down s1) _ _ s1 (g.elems Kind.rparen s1 (omega arith)) λ es s2 x.
          Ends-bind (Drop s) (Drop s2) _ _ s2 (expect-Drop Kind.rparen _ s2 refl)
            λ t s3 y. omega arith

  pub parse_group_type-Drops : Drops fuel (parse_group_type c)
  unfolding parse_group_type is_end
  parse_group_type-Drops s h =
      Ends-bind (Drop s) (Drop s) _ _ s (expect-Drop Kind.lparen _ s refl) λ t s1 d.
        Ends-bind (Drop s) (Down s1) _ _ s1 (g.type s1 (omega arith)) λ u s2 x.
          Ends-bind (Drop s) (Drop s2) _ _ s2 (expect-Drop Kind.rparen _ s2 refl)
            λ t s3 y. omega arith

  pub parse_ptr_type-Drops : (a : Attrs) → Drops fuel (parse_ptr_type c a)
  unfolding parse_ptr_type is_end
  parse_ptr_type-Drops a s h =
      Ends-bind (Drop s) (Drop s) _ _ s (expect-Drop Kind.star _ s refl) λ t s1 d.
        Ends-bind (Drop s) (Down s1) _ _ s1 (g.type s1 (omega arith)) λ u s2 x. omega arith

  pub parse_atom_type-Runs : (a : Attrs) → Runs fuel 1 (parse_atom_type c a)
  unfolding parse_atom_type
  parse_atom_type-Runs a s h = Ends-bind (Down s) (Down s) _ _ s (g.type s h) λ u s1 x. x

  pub enums_turn-Runs : Runs (suc fuel) 0 (enums_turn c)
  unfolding enums_turn is_end
  enums_turn-Runs s h =
      Ends-when (Down s) Kind.rbracket refl _ _ s (λ s1 e k. omega arith)
        λ s1 k. Ends-bind (Down s) (Drop s1) _ _ s1 (expect-Drop Kind.dot _ s1 refl) λ t s2 d.
          Ends-bind (Down s) (Drop s2) _ _ s2 (expect-Drop Kind.ident _ s2 refl) λ n s3 e.
            Ends-bind (Down s) (IsPeeked s3) _ _ s3 (peek-IsPeeked s3) λ t s4 p.
              Ends-bind (Down s) (Down s3) _ _ s4
                (Ends-branch (Down s3) (is Kind.eq t) _ _ s4
                  (λ b. Ends-bind (Down s3) (Down s4) _ _ s4 (next-Down s4) λ u s5 x.
                    Ends-bind (Down s3) (Down s5) _ _ s5 (g.expr s5 (omega (arith, p.1)))
                      λ i s6 y. omega (arith, p.1))
                  (λ b. omega (arith, p.1)))
                λ put s5 x.
                  Ends-take (Down s) Kind.comma refl _ _ s5
                    (λ s6 y.
                      Ends-bind (Down s) (Down s6) _ _ s6 (g.enums s6 (omega arith))
                        λ es s7 z. omega arith)
                    (λ s6 y. omega arith)

  parse_enum-Runs : (a : Attrs) (r : Range) → Runs fuel 1 (parse_enum c a r)
  unfolding parse_enum is_end
  parse_enum-Runs a r s h = Ends-bind (Down s) (Down s) _ _ s (g.enums s (omega arith)) λ es s1 d.
      Ends-bind (Down s) (Drop s1) _ _ s1 (expect-Drop Kind.rbracket _ s1 refl)
        λ t s2 x. omega arith

  parse_array-Runs : (a : Attrs) (r : Range) (e : Expr) → Runs fuel 1 (parse_array c a r e)
  unfolding parse_array is_end
  parse_array-Runs a r e s h =
      Ends-bind (Down s) (Drop s) _ _ s (expect-Drop Kind.rbracket _ s refl) λ t s1 d.
        Ends-bind (Down s) (Down s1) _ _ s1 (g.type s1 (omega arith)) λ u s2 x. omega arith

  bracket_case-Runs : (a : Attrs) (r : Range) (k : Kind) → Runs fuel 1 (bracket_case c a r k)
  unfolding bracket_case
  bracket_case-Runs a r Kind.dot s h = parse_enum-Runs a r s h
  bracket_case-Runs a r Kind.question s h =
      Ends-bind (Down s) (Down s) _ _ s (next-Down s)
        λ t s1 d. Ends-Down s s1 _ d (parse_array-Runs a r _ s1 (omega arith))
  bracket_case-Runs a r _ s h =
      Ends-bind (Down s) (Down s) _ _ s (g.expr s h)
        λ e s1 d. Ends-Down s s1 _ d (parse_array-Runs a r e s1 (omega arith))

  pub parse_bracket_type-Drops : (a : Attrs) → Drops fuel (parse_bracket_type c a)
  unfolding parse_bracket_type is_end
  parse_bracket_type-Drops a s h =
      Ends-bind (Drop s) (Drop s) _ _ s (expect-Drop Kind.lbracket _ s refl) λ t s1 d.
        Ends-bind (Drop s) (IsPeeked s1) _ _ s1 (peek-IsPeeked s1) λ u s2 p.
          Ends-Drop s s2 _ (omega (arith, p.1))
            (bracket_case-Runs a _ u.kind s2 (omega (arith, p.1)))
