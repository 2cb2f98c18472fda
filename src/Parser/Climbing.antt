-- ===== src/Parser/Climbing.antt =====
-- One turn of each function keeps the grouping, and so does the parser on any fuel.
use rox.Prelude.{ℕ, zero, suc, ◌+◌, ◌≤◌, ◌<◌, ◌≡◌, refl, arith, ap}
use rox.Ast.{Expr}
use rox.Parser.Run.{calls}
use rox.Prelude.{◌∙◌}
use rox.Lexer.Token.{Kind, Range}
use rox.Parser.State.{Parser, Lexed, peek, next}
use rox.Parser.Prec.{binary_prec_, prec_below, prec_lt, binary_prec}
use rox.Parser.Calls.{Libc, Calls}
use rox.Parser.Post.{Post-weaken, Post-branch, Post, Always, Post-bind}
use rox.Parser.Precedence.{top, Atom, IsAtom, Groups, Entry, Exit, Grouped, Climbs, at_kind}
use rox.Parser.Atoms.{parse_type_expr-IsAtom, unary_turn-IsAtom, postfix_turn-IsAtom}
use rox.Parser.Expr.{binop_turn, expr_turn, binop_node, binop_operand, tighter}

binop_operand-IsAtom : (c : Calls) → Groups c → (k : Kind) → Always IsAtom (binop_operand c k)
unfolding binop_operand
binop_operand-IsAtom c g Kind.kw_as s = parse_type_expr-IsAtom c s
binop_operand-IsAtom c g Kind.kw_is s = parse_type_expr-IsAtom c s
binop_operand-IsAtom c g _ s = g.unary s

-- The switch builds a node with the operator's precedence, for each token that is an operator.
binop_node-groups :
    (k : Kind) (r : Range) (a b : Expr) (s : Parser)
    → Grouped (binary_prec k) a b
    → Climbs a
    → Climbs b
    → Post (λ e s'. (top e ≡ binary_prec k) × Climbs e × (s' ≡ s)) (binop_node k r a b s)
unfolding binop_node binary_prec_
binop_node-groups Kind.kw_as r a b s g p q = (refl, (g, p, q), refl)
binop_node-groups Kind.kw_is r a b s g p q = (refl, (g, p, q), refl)
binop_node-groups Kind.kw_of r a b s g p q = (refl, (g, p, q), refl)
binop_node-groups Kind.star r a b s g p q = (refl, (g, p, q), refl)
binop_node-groups Kind.fslash r a b s g p q = (refl, (g, p, q), refl)
binop_node-groups Kind.plus r a b s g p q = (refl, (g, p, q), refl)
binop_node-groups Kind.minus r a b s g p q = (refl, (g, p, q), refl)
binop_node-groups Kind.lshift r a b s g p q = (refl, (g, p, q), refl)
binop_node-groups Kind.rshift r a b s g p q = (refl, (g, p, q), refl)
binop_node-groups Kind.lt r a b s g p q = (refl, (g, p, q), refl)
binop_node-groups Kind.lte r a b s g p q = (refl, (g, p, q), refl)
binop_node-groups Kind.min r a b s g p q = (refl, (g, p, q), refl)
binop_node-groups Kind.gt r a b s g p q = (refl, (g, p, q), refl)
binop_node-groups Kind.gte r a b s g p q = (refl, (g, p, q), refl)
binop_node-groups Kind.max r a b s g p q = (refl, (g, p, q), refl)
binop_node-groups Kind.eqeq r a b s g p q = (refl, (g, p, q), refl)
binop_node-groups Kind.neq r a b s g p q = (refl, (g, p, q), refl)
binop_node-groups Kind.band r a b s g p q = (refl, (g, p, q), refl)
binop_node-groups Kind.bor r a b s g p q = (refl, (g, p, q), refl)
binop_node-groups Kind.land r a b s g p q = (refl, (g, p, q), refl)
binop_node-groups Kind.lor r a b s g p q = (refl, (g, p, q), refl)
binop_node-groups _ r a b s g p q = tt

-- The token that `peek` and `next` return is the one ahead, and `peek` leaves it there.
abbrev IsAhead : Parser → Lexed → Parser → Type 0
IsAhead s t s' = (t.kind ≡ at_kind s) × (at_kind s' ≡ at_kind s)

peek-IsAhead : (s : Parser) → Post (IsAhead s) (peek s)
unfolding peek
peek-IsAhead s = (refl, refl)

next-IsAhead : (s : Parser) → Post (λ t _. t.kind ≡ at_kind s) (next s)
unfolding next
next-IsAhead s = refl

-- The right operand, behind an operator k.
record Right (k : Kind) (e : Expr) (s : Parser) : Type 0 where
  climbs : Climbs e
  bound : binary_prec k < top e
  ahead : 16 ≤ binary_prec k + binary_prec_ (at_kind s)

tighter-Right :
    (c : Calls) → Groups c → (k : Kind) (rhs : Expr) → Atom rhs → Always (Right k) (tighter c k rhs)
unfolding tighter
tighter-Right c g k rhs a s = Post-bind _ (IsAhead s) _ _ s (peek-IsAhead s) λ t s' h.
    Post-branch (Right k) (prec_lt k t.kind) _ _ s'
      (λ e.
        Post-weaken (Exit (binary_prec k + 1)) (Right k) _
          (λ r s'' x. record {
            climbs = x.climbs;
            bound = omega (arith, x.bound);
            ahead = omega (arith, x.ahead);
          })
          (g.binop (binary_prec k + 1) rhs s'
            (record { climbs = a.1; bound = omega (arith, a.0); ahead = omega (arith, a.0) })))
      (λ e. record {
        climbs = a.1;
        bound = omega (arith, a.0);
        ahead = ground (arith, ap binary_prec_ h.0, ap binary_prec_ h.1);
      })

binop_turn-Exit :
    (c : Calls)
    → Groups c
    → (p : ℕ) (lhs : Expr) (s : Parser) → Entry p lhs s
    → Post (Exit p) (binop_turn c p lhs s)
unfolding binop_turn
binop_turn-Exit c g p lhs s en = Post-bind _ (IsAhead s) _ _ s (peek-IsAhead s) λ t s1 h.
    Post-branch (Exit p) (prec_below t.kind p) _ _ s1
      (λ e. record {
        climbs = en.climbs;
        bound = en.bound;
        ahead = ground (arith, ap binary_prec_ h.0, ap binary_prec_ h.1);
      })
      (λ e.
        Post-bind _ (λ u _. u.kind ≡ at_kind s1) _ _ s1 (next-IsAhead s1)
          λ u s2 k.
            let same : binary_prec_ u.kind ≡ binary_prec_ (at_kind s) = ap binary_prec_ (k ∙ h.1) in
            let low : p + binary_prec_ u.kind ≤ 16 = ground (arith, ap binary_prec_ h.0) in
            Post-bind _ IsAtom _ _ s2 (binop_operand-IsAtom c g u.kind s2) λ rhs s3 a.
              Post-bind _ (Right u.kind) _ _ s3 (tighter-Right c g u.kind rhs a s3) λ r s4 right.
                Post-bind _ _ _ _ s4
                  (binop_node-groups u.kind _ lhs r s4 (omega (arith, en.ahead), right.bound)
                    en.climbs right.climbs)
                  λ l s5 n. g.binop p l s5 (record {
                    climbs = n.1;
                    bound = omega (arith, n.0);
                    ahead = omega (arith, n.0, right.ahead, ap (λ x. binary_prec_ (at_kind x)) n.2);
                  }))

expr_turn-Climbs : (c : Calls) → Groups c → Always (λ e _. Climbs e) (expr_turn c)
unfolding expr_turn
expr_turn-Climbs c g s = Post-bind _ IsAtom _ _ s (g.unary s) λ lhs s' a.
    Post-weaken (Exit 0) _ _ (λ e s'' x. x.climbs)
      (g.binop 0 lhs s' (record { climbs = a.1; bound = omega arith; ahead = omega (arith, a.0) }))

calls-Groups : (lc : Libc) (fuel : ℕ) → Groups (calls lc fuel)
unfolding calls
calls-Groups lc zero = record {
  unary = λ s. tt;
  postfix = λ e a s. tt;
  binop = λ p lhs s en. tt;
  expr = λ s. tt;
}
calls-Groups lc (suc fuel) =
    let g = calls-Groups lc fuel in
    record {
      unary = unary_turn-IsAtom (calls lc fuel) g;
      postfix = postfix_turn-IsAtom (calls lc fuel) g;
      binop = binop_turn-Exit (calls lc fuel) g;
      expr = expr_turn-Climbs (calls lc fuel) g;
    }

-- An expression that is returned.
pub parse_expr-Post :
    (lc : Libc) (fuel : ℕ) (s : Parser) → Post (λ e _. Climbs e) ((calls lc fuel).parse_expr s)
parse_expr-Post lc fuel s = (calls-Groups lc fuel).expr s
