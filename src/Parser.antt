-- ===== src/Parser.antt =====
-- parser.h and parser.cpp. `State` has the parser's state and its monad, the modules named for
-- parts of the grammar have one function for each `parse_` function, and `Run` ties them together.
pub mod State
pub mod Prec
pub mod Calls
pub mod Expr
pub mod Number
pub mod TypeExpr
pub mod Run
pub mod Post
pub mod Precedence
pub mod Atoms
pub mod Climbing
pub mod Source
pub mod Slices
pub mod Tree
pub mod Turns
pub mod Complete
pub mod Ends
pub mod Enough
pub mod EnoughAtoms
pub mod EnoughExprs
pub mod EnoughBinops
pub mod EnoughTypes
pub mod EnoughFns
pub mod Returns
pub mod StmtParser
pub mod StmtRun
pub mod EnoughStmts
pub mod EnoughFlows
pub mod StmtReturns
pub mod Lets
pub mod UnitParser
pub mod UnitReturns
