-- ===== src/Parser/Slices.antt =====
-- Slice types: `parse_bracket_type` asks `parse_expr` for an extent before it looks for `]`.
use rox.Prelude.{ℕ, suc, ◌≡◌, refl, List, ◌∷◌}
use rox.Lexer.Token.{Range, code, lbracket, rbracket}
use rox.Parser.State.{
  lexeme, rest_tokens, head_token, ◌>>=◌, next, peek, expect, Parser, Lexed, err,
}
use rox.Parser.Calls.{Libc}
use rox.Parser.Run.{calls}
use rox.Parser.TypeExpr.{bracket_case, parse_bracket_type, type_case, type_loop_turn, type_turn}
use rox.Parser.Expr.{
  primary_case, parse_primary_expr, parse_postfix_expr, unary_case, unary_turn, expr_turn,
}
use rox.Lexer.Char.{Bytes}

-- `parse_type` in front of `[`, `]` and any further token reports an unknown token in a primary
-- expression at the `]`, on any fuel from four on.
pub parse_type-slice :
    (lc : Libc) (fuel : ℕ) (s : Parser) (r q : Range) (x y : Bytes) (u : Lexed) (ts : List Lexed)
    → (calls lc (suc (suc (suc (suc fuel))))).parse_type
        (record s { ahead = lexeme lbracket r x ∷ lexeme rbracket q y ∷ u ∷ ts })
      ≡ err q "Unknown token '%S' in primary expression"
unfolding calls type_turn type_loop_turn type_case parse_bracket_type bracket_case expr_turn
    unary_turn unary_case parse_postfix_expr parse_primary_expr primary_case expect peek next ◌>>=◌
    head_token rest_tokens code
parse_type-slice lc fuel s r q x y u ts = refl
