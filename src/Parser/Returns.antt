-- ===== src/Parser/Returns.antt =====
-- The parser returns or reports on every list of tokens.
use rox.Prelude.{ℕ, zero, suc, ◌+◌, ◌*◌, ◌≤◌, ◌<◌, ◌≡◌, arith}
use rox.Parser.State.{silent_null, Parser, Result, ok, err, no_fuel}
use rox.Parser.Calls.{Libc}
use rox.Parser.Run.{calls}
use rox.Prelude.{List, length, some}
use rox.Lexer.Char.{Bytes}
use rox.Parser.Post.{Post}
use rox.Parser.Precedence.{Climbs}
use rox.Parser.Climbing.{parse_expr-Post}
use rox.Parser.State.{Lexed}
use rox.Parser.Run.{start}
use rox.Parser.Source.{source_tokens, source_tokens_total}
use rox.Parser.Ends.{live-length, Ends-weaken, live, Ends, Down}
use rox.Parser.Enough.{Fits}
use rox.Parser.EnoughExprs.{unary_turn-Runs, postfix_turn-Runs, tuple_turn-Runs, agg_turn-Runs}
use rox.Parser.EnoughBinops.{binop_turn-Runs, expr_turn-Runs}
use rox.Parser.EnoughTypes.{elems_turn-Runs, enums_turn-Runs}
use rox.Parser.EnoughFns.{type_turn-Runs, type_loop_turn-Runs, effects_turn-Runs, attrs_turn-Runs}

pub calls-Fits : (lc : Libc) (fuel : ℕ) → Fits fuel (calls lc fuel)
unfolding calls
calls-Fits lc zero = record {
  expr = λ s h. absurd (omega arith);
  unary = λ s h. absurd (omega arith);
  binop = λ p e s h. absurd (omega arith);
  postfix = λ e s h. absurd (omega arith);
  tuple = λ s h. absurd (omega arith);
  agg = λ s h. absurd (omega arith);
  type = λ s h. absurd (omega arith);
  types = λ a s h. absurd (omega arith);
  elems = λ k s h. absurd (omega arith);
  effects = λ s h. absurd (omega arith);
  enums = λ s h. absurd (omega arith);
  attrs = λ s h. absurd (omega arith);
}
calls-Fits lc (suc fuel) =
    let c = calls lc fuel in
    let g = calls-Fits lc fuel in
    record {
      expr = expr_turn-Runs fuel c g;
      unary = unary_turn-Runs fuel c g;
      binop = binop_turn-Runs fuel c g;
      postfix = postfix_turn-Runs fuel c g;
      tuple = tuple_turn-Runs fuel c g;
      agg = agg_turn-Runs fuel c g;
      type = type_turn-Runs fuel c g;
      types = type_loop_turn-Runs fuel c g;
      elems = elems_turn-Runs fuel c g;
      effects = effects_turn-Runs fuel c g;
      enums = enums_turn-Runs fuel c g;
      attrs = attrs_turn-Runs fuel c g;
    }

Ends-Post :
    {A : Type 0} (P Q : A → Parser → Type 0) (r : Result A)
    → Ends P r
    → Post Q r
    → Ends (λ a s. Q a s × P a s) r
Ends-Post P Q (ok a s) p q = (q, p)
Ends-Post P Q (err _ _) p q = tt
Ends-Post P Q silent_null p q = tt
Ends-Post P Q no_fuel p q = p

-- With more fuel than three units for each token ahead that is not `END`, and one more,
-- `parse_expr` never runs out of fuel, whatever the tokens: it gives null, with an error
-- reported or with none, or it returns with no more such tokens ahead than before, and then
-- every binary node on the spine of binary nodes from the root has a left operand that binds at
-- least as tightly as the node and a right operand that binds more tightly, by the precedences
-- that lexer.h gives the operators.
pub parse_expr-Ends :
    (lc : Libc) (fuel : ℕ) (s : Parser)
    → 3 * live s.ahead + 1 < fuel
    → Ends (λ e s'. Climbs e × live s'.ahead ≤ live s.ahead) ((calls lc fuel).parse_expr s)
parse_expr-Ends lc fuel s h =
    Ends-Post (Down s) (λ e _. Climbs e) _ ((calls-Fits lc fuel).expr s h)
      (parse_expr-Post lc fuel s)

-- With more fuel than three units for each token ahead that is not `END`, and one more,
-- `parse_type` never runs out of fuel, whatever the tokens: it reports an error, or returns with
-- no more such tokens ahead than before.
pub parse_type-Ends :
    (lc : Libc) (fuel : ℕ) (s : Parser)
    → 3 * live s.ahead + 1 < fuel
    → Ends (λ t s'. live s'.ahead ≤ live s.ahead) ((calls lc fuel).parse_type s)
parse_type-Ends lc fuel s h = (calls-Fits lc fuel).type s h

-- Every byte string is read to its end as tokens, and on three units of fuel for each of these
-- tokens, and two more, `parse_expr` over them reports an error or returns an expression whose
-- binary nodes from the root are grouped by precedence, equal operators to the left.
pub parse_expr-source_tokens :
    (lc : Libc) (bs : Bytes)
    → (ts : List Lexed) × (source_tokens (length bs + 1) (record { bytes = bs; offset = 0 })
        ≡ some ts)
      × Ends (λ e _. Climbs e) ((calls lc (3 * length ts + 2)).parse_expr (start ts))
parse_expr-source_tokens lc bs =
    let (ts, found, _) =
      source_tokens_total (length bs + 1) (record { bytes = bs; offset = 0 }) (omega arith)
        (omega arith) in
    (
      ts,
      found,
      Ends-weaken _ (λ e _. Climbs e) _ (λ e s' x. x.0)
          (parse_expr-Ends lc (3 * length ts + 2) (start ts) (omega (arith, live-length ts))),
    )
