-- ===== src/Parser/Atoms.antt =====
-- Every expression but one that `parse_binop_rhs` builds is no binary node.
use rox.Prelude.{arith, ℕ, Option, none, some, refl}
use rox.Ast.{Expr, type_expr}
use rox.Prelude.{◌||◌}
use rox.Parser.Number.{Filtered, clean, trailing}
use rox.Lexer.Token.{Kind, Range}
use rox.Parser.State.{Lexed, is}
use rox.Parser.Calls.{Libc, Calls}
use rox.Parser.Post.{Always, Post-bind, Post-then, Post-if}
use rox.Parser.Precedence.{Atom, IsAtom, Groups}
use rox.Parser.Expr.{
  is_type_expr, parse_postfix_expr, parse_primary_expr, postfix_case, postfix_turn, primary_case,
  unary_case, unary_node, unary_turn, parse_agg_expr, parse_call_expr, parse_index_expr,
  parse_selector_expr, parse_tuple_expr, parse_type_expr, parse_var_expr,
}
use rox.Parser.Number.{
  int_value, parse_bool_expr, parse_chr_expr, parse_flt_expr, parse_int_expr, parse_str_expr,
  read_flt, read_int,
}
use rox.Lexer.Char.{Bytes}

parse_tuple_expr-IsAtom : (c : Calls) → Always IsAtom (parse_tuple_expr c)
unfolding parse_tuple_expr
parse_tuple_expr-IsAtom c s =
    Post-then _ _ _ s λ beg s. Post-then _ _ _ s λ es s. Post-then _ _ _ s λ fin s. (refl, tt)

parse_index_expr-IsAtom : (c : Calls) (e : Expr) → Always IsAtom (parse_index_expr c e)
unfolding parse_index_expr
parse_index_expr-IsAtom c e s =
    Post-then _ _ _ s λ beg s. Post-then _ _ _ s λ i s. Post-then _ _ _ s λ fin s. (refl, tt)

parse_call_expr-IsAtom : (c : Calls) (e : Expr) → Always IsAtom (parse_call_expr c e)
unfolding parse_call_expr
parse_call_expr-IsAtom c e s = Post-then _ _ _ s λ args s. (refl, tt)

parse_agg_expr-IsAtom : (c : Calls) (o : Option Expr) → Always IsAtom (parse_agg_expr c o)
unfolding parse_agg_expr
parse_agg_expr-IsAtom c none s = Post-then _ _ _ s λ r s. (refl, tt)
parse_agg_expr-IsAtom c (some (type_expr _ _)) s = Post-then _ _ _ s λ r s. (refl, tt)
parse_agg_expr-IsAtom c (some _) s = tt

pub parse_type_expr-IsAtom : (c : Calls) → Always IsAtom (parse_type_expr c)
unfolding parse_type_expr
parse_type_expr-IsAtom c s = Post-then _ _ _ s λ t s. (refl, tt)

parse_var_expr-IsAtom : Always IsAtom parse_var_expr
unfolding parse_var_expr
parse_var_expr-IsAtom s = Post-then _ _ _ s λ t s. (refl, tt)

parse_selector_expr-IsAtom : Always IsAtom parse_selector_expr
unfolding parse_selector_expr
parse_selector_expr-IsAtom s = Post-then _ _ _ s λ beg s. Post-then _ _ _ s λ name s. (refl, tt)

int_value-IsAtom : (r : Range) (n : ℕ) (rest : Bytes) → Always IsAtom (int_value r n rest)
unfolding int_value
int_value-IsAtom r n rest s = ground arith

read_int-IsAtom : (lc : Libc) (t : Lexed) (f : Filtered) → Always IsAtom (read_int lc t f)
unfolding read_int
read_int-IsAtom lc t (trailing i) s = tt
read_int-IsAtom lc t (clean buf) s = int_value-IsAtom _ _ _ _

parse_int_expr-IsAtom : (lc : Libc) → Always IsAtom (parse_int_expr lc)
unfolding parse_int_expr
parse_int_expr-IsAtom lc s = Post-then _ _ _ s λ t s. read_int-IsAtom lc t _ s

read_flt-IsAtom : (lc : Libc) (t : Lexed) (f : Filtered) → Always IsAtom (read_flt lc t f)
unfolding read_flt
read_flt-IsAtom lc t (trailing i) s = tt
read_flt-IsAtom lc t (clean buf) s = (refl, tt)

parse_flt_expr-IsAtom : (lc : Libc) → Always IsAtom (parse_flt_expr lc)
unfolding parse_flt_expr
parse_flt_expr-IsAtom lc s = Post-then _ _ _ s λ t s. read_flt-IsAtom lc t _ s

parse_chr_expr-IsAtom : Always IsAtom parse_chr_expr
unfolding parse_chr_expr
parse_chr_expr-IsAtom s = Post-then _ _ _ s λ t s. (refl, tt)

parse_str_expr-IsAtom : Always IsAtom parse_str_expr
unfolding parse_str_expr
parse_str_expr-IsAtom s = Post-then _ _ _ s λ t s. (refl, tt)

parse_bool_expr-IsAtom : Always IsAtom parse_bool_expr
unfolding parse_bool_expr
parse_bool_expr-IsAtom s = Post-then _ _ _ s λ t s.
    Post-if IsAtom (is Kind.kw_true t || is Kind.kw_false t) _ _ s
      (Post-then _ _ _ s λ t s. (refl, tt)) tt

primary_case-IsAtom : (c : Calls) (k : Kind) → Always IsAtom (primary_case c k)
unfolding primary_case
primary_case-IsAtom c Kind.dot s = parse_selector_expr-IsAtom s
primary_case-IsAtom c Kind.kw_type s = parse_var_expr-IsAtom s
primary_case-IsAtom c Kind.ident s = parse_var_expr-IsAtom s
primary_case-IsAtom c Kind.kw_true s = parse_bool_expr-IsAtom s
primary_case-IsAtom c Kind.kw_false s = parse_bool_expr-IsAtom s
primary_case-IsAtom c Kind.lit_int s = parse_int_expr-IsAtom c.libc s
primary_case-IsAtom c Kind.lit_flt s = parse_flt_expr-IsAtom c.libc s
primary_case-IsAtom c Kind.lit_str s = parse_str_expr-IsAtom s
primary_case-IsAtom c Kind.lit_chr s = parse_chr_expr-IsAtom s
primary_case-IsAtom c Kind.lparen s = parse_tuple_expr-IsAtom c s
primary_case-IsAtom c Kind.kw_new s = Post-then _ _ _ s λ t s. parse_type_expr-IsAtom c s
primary_case-IsAtom c Kind.lbrace s = parse_agg_expr-IsAtom c none s
primary_case-IsAtom c _ s = tt

pub parse_primary_expr-IsAtom : (c : Calls) → Always IsAtom (parse_primary_expr c)
unfolding parse_primary_expr
parse_primary_expr-IsAtom c s = Post-then _ _ _ s λ t s. primary_case-IsAtom c t.kind s

module _ (c : Calls) (g : Groups c) where
  postfix_case-IsAtom : (e : Expr) (k : Kind) → Atom e → Always IsAtom (postfix_case c e k)
  unfolding postfix_case
  postfix_case-IsAtom e Kind.dot a s =
      Post-then _ _ _ s λ t s. Post-then _ _ _ s λ f s. g.postfix _ (refl, tt) s
  postfix_case-IsAtom e Kind.lbracket a s =
      Post-bind _ IsAtom _ _ s (parse_index_expr-IsAtom c e s) λ f s b. g.postfix f b s
  postfix_case-IsAtom e Kind.lparen a s =
      Post-bind _ IsAtom _ _ s (parse_call_expr-IsAtom c e s) λ f s b. g.postfix f b s
  postfix_case-IsAtom e Kind.lbrace a s =
      Post-if IsAtom (is_type_expr e) _ _ s
        (Post-bind _ IsAtom _ _ s (parse_agg_expr-IsAtom c (some e) s) λ f s b. g.postfix f b s) a
  postfix_case-IsAtom e _ a s = a

  pub postfix_turn-IsAtom : (e : Expr) → Atom e → Always IsAtom (postfix_turn c e)
  unfolding postfix_turn
  postfix_turn-IsAtom e a s = Post-then _ _ _ s λ t s. postfix_case-IsAtom e t.kind a s

  parse_postfix_expr-IsAtom : Always IsAtom (parse_postfix_expr c)
  unfolding parse_postfix_expr
  parse_postfix_expr-IsAtom s = Post-bind _ IsAtom _ _ s (parse_primary_expr-IsAtom c s) λ e s a.
      Post-then _ _ _ s λ t s.
        Post-if IsAtom (is Kind.bang t) _ _ s (Post-then _ _ _ s λ t s. g.postfix _ (refl, tt) s)
          (g.postfix e a s)

  unary_node-IsAtom :
      (node : Range → Expr → Expr)
      → ((r : Range) (e : Expr) → Atom (node r e))
      → Always IsAtom (unary_node c node)
  unfolding unary_node
  unary_node-IsAtom node h s = Post-then _ _ _ s λ t s. Post-then _ _ _ s λ e s. h _ e

  unary_case-IsAtom : (k : Kind) → Always IsAtom (unary_case c k)
  unfolding unary_case
  unary_case-IsAtom Kind.bang s = unary_node-IsAtom _ (λ r e. (refl, tt)) s
  unary_case-IsAtom Kind.minus s = unary_node-IsAtom _ (λ r e. (refl, tt)) s
  unary_case-IsAtom Kind.plus s = Post-then _ _ _ s λ t s. g.unary s
  unary_case-IsAtom Kind.star s = unary_node-IsAtom _ (λ r e. (refl, tt)) s
  unary_case-IsAtom Kind.band s = unary_node-IsAtom _ (λ r e. (refl, tt)) s
  unary_case-IsAtom Kind.ellipsis s = unary_node-IsAtom _ (λ r e. (refl, tt)) s
  unary_case-IsAtom _ s = parse_postfix_expr-IsAtom s

  pub unary_turn-IsAtom : Always IsAtom (unary_turn c)
  unfolding unary_turn
  unary_turn-IsAtom s = Post-then _ _ _ s λ t s. unary_case-IsAtom t.kind s
