-- ===== src/Parser/StmtReturns.antt =====
-- The parser returns or reports on every list of tokens where a statement is asked for.
use rox.Prelude.{ℕ, zero, suc, ◌+◌, ◌*◌, ◌<◌, arith}
use rox.Parser.State.{Parser}
use rox.Parser.Calls.{Libc}
use rox.Parser.Ends.{live, Ends}
use rox.Parser.Returns.{calls-Fits}
use rox.Parser.StmtRun.{stmt_calls}
use rox.Parser.EnoughStmts.{StmtFits, stmts_turn-Runs}
use rox.Parser.EnoughFlows.{stmt_turn-Takes, if_turn-Runs}

pub stmt_calls-StmtFits : (lc : Libc) (fuel : ℕ) → StmtFits fuel (stmt_calls lc fuel)
unfolding stmt_calls
stmt_calls-StmtFits lc zero = record {
  exprs = calls-Fits lc zero;
  stmt = λ s h. absurd (omega arith);
  if_ = λ s h. absurd (omega arith);
  stmts = λ s h. absurd (omega arith);
}
stmt_calls-StmtFits lc (suc fuel) =
    let c = stmt_calls lc fuel in
    let g = stmt_calls-StmtFits lc fuel in
    record {
      exprs = calls-Fits lc (suc fuel);
      stmt = stmt_turn-Takes fuel c g;
      if_ = if_turn-Runs fuel c g;
      stmts = stmts_turn-Runs fuel c g;
    }

-- With more fuel than three units for each token ahead that is not `END`, and two more,
-- `parse_stmt` never runs out of fuel, whatever the tokens: it gives null, with an error
-- reported or with none, or it returns with fewer such tokens ahead than before.
pub parse_stmt-Ends :
    (lc : Libc) (fuel : ℕ) (s : Parser)
    → 3 * live s.ahead + 2 < fuel
    → Ends (λ e s'. live s'.ahead < live s.ahead) ((stmt_calls lc fuel).parse_stmt s)
parse_stmt-Ends lc fuel s h = (stmt_calls-StmtFits lc fuel).stmt s h
