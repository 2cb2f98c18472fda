-- ===== src/Lib.antt =====
-- Biron, the compiler of the Rox operating system (src/biron), as a model of its front end, its types and
-- constants, its code generation down to expressions, and the memory and text below them.
--
-- A source file is read by `Lexer` (src/biron/lexer.h, lexer.inl, lexer.cpp).
-- Lexer/Token and Lexer/Char have the kinds, ranges and character tests, Lexer/Scan and
-- Lexer/Number the `switch` of `Lexer::read` with its loops as recursions over the bytes ahead, and
-- Lexer/Read the lexer's state with `read`, `next` and a client's loop over a whole file. The other
-- modules below Lexer prove where tokens end, that the loops end, and that texts of the documented
-- form are read as one token.
--
-- `Parser` (src/biron/parser.h, parser.cpp) pulls the tokens one at a time, with one token of
-- lookahead, and builds the nodes of Ast (src/biron/ast_expr.h, ast_type.h, ast_attr.h). Here it
-- reads a list of tokens, each with its range and text; Parser/Source is the list that the lexer
-- hands over. Parser/State has the parser's state, `next`, `peek` and the reports,
-- Parser/Prec the operators' precedences from lexer.h, Parser/Expr, Parser/Number and
-- Parser/TypeExpr one definition for each `parse_` function on expressions, literals, types and
-- attributes. They call one another through the record Parser/Calls, which Parser/Run fills on
-- fuel. A null result of the source is an `err` with the range and format of its report, or
-- `silent_null` where nothing is reported.
-- Parser/Precedence to Parser/Climbing prove what any expression that is returned looks like,
-- Parser/Tree to Parser/Complete that expressions are read as the grammar means them, Parser/Ends to
-- Parser/Returns that the parser returns or reports. The nodes of statements are in Stmt
-- (src/biron/ast_stmt.h), their functions in Parser/StmtParser, over one another in Parser/StmtRun;
-- Parser/StmtReturns and Parser/Lets are about them. Units has what a file declares
-- (src/biron/ast_unit.h, ast_unit.cpp), Parser/UnitParser its functions and `parse`, and
-- Parser/UnitReturns is about these.
--
-- Types of the code generator (src/biron/cg_type.h, cg_type.cpp) are in Types, a tree for each, and
-- Types/Make has a definition for each `CgTypeCache::make`. Types/Masks and Types/Aligns are about
-- the mask that rounds offsets up, Types/Places and Types/Virtual about the tuples that it gives,
-- Types/Unions about unions, Types/Pads about the cache of paddings, Types/Same about
-- `operator!=`, Types/Print and Types/Shown about printing. Const has the constants
-- (src/biron/ast_const.h, ast_const.cpp), which tuples and enums copy for their fields,
-- and Eval the functions `eval_value` of cg_expr.cpp, with what `Cg` knows as the parameter `Known`.
--
-- Code generation is in Gen. Gen/TypeGen and Gen/Resolve are `codegen` of the nodes of types (cg_type.cpp)
-- and of type definitions and effects (cg_unit.cpp), over the part of `Cg` that they change, with the
-- parameter `infers` for whether gen_type finds a type for an enumerator. What `of` gives for a type is
-- the parameter `property` of Eval; the type that it names is generated first, by `ask`. The types that
-- an `of` about anything else than a name, and the gen_type of an enumerator, may generate are left out. Gen/Denotes says what a
-- node denotes with no order in which names are declared; Gen/Extends to Gen/Whole relate the two, and
-- Gen/Asks to Gen/Terminates are about
-- definitions that can be ranked, Gen/Cycles about those that name themselves. Gen/Scopes has the scopes of cg.h and their
-- lookups, Gen/Emit the state of `Cg` with the basic blocks that LLVM's builder makes and the interface
-- `Expressions` of the operations on expressions and values, Gen/Assign and Gen/StmtGen a definition for
-- each `codegen` of cg_stmt.cpp, Gen/FnGen, Gen/Prepass and Gen/UnitGen those of functions and units in
-- cg_unit.cpp. Gen/Holds to Gen/Functions and Gen/UnitKeeps are about how scopes are balanced, Gen/Lookup,
-- Gen/Defers and Gen/Returning about names and deferred statements, Gen/Declares about the prepass.
--
-- Below them is the memory (src/biron/util): Memory/Interface is `Allocator`, over the state of
-- whatever gives the memory; Memory/Pool and Memory/Cache are pool.h and pool.cpp, Memory/Inline and
-- Memory/Arena allocator.h and allocator.cpp, and the modules beside them what they give. Bits has
-- the laws of machine words that pools and masks need. Arrays is array.inl over an allocator, Strings
-- the builder of string.h and string.cpp over an array, Format format.h and format.cpp.
--
-- Numbers: a byte, an offset and a length are native numbers. Fuel: `next` takes one unit for each
-- call of `read`, and `lex` gives one more than there are bytes; the parser takes one unit for each
-- call of a recursive function and for each turn of a loop. Between two tokens that are taken there
-- are at most three nested calls, which bounds the fuel by the number of tokens; `fuel_for` in
-- Parser/Tree says how much a tree of operators needs. A cache and an arena take one unit for each call
-- of themselves, two in all where they return; the loop that grows an array takes one for each element,
-- format_va one for each character and one more, a count of digits as much as the number. `resolve`
-- takes one unit for each name that is looked for: where the definitions of a unit can be ranked, more than
-- the greatest rank is enough, and otherwise it can run without end. `gen_stmt` takes one for each
-- statement and has no bound, since the deferred statements of a return can run without end.
--
-- The C library's `strtoull` and `strtod` are parameters, and so is the memory that an `Allocator`
-- gives. The lexer, the parser, the types, the constants and code generation take memory never to run out. Not
-- modelled are diagnostics, the references of types to LLVM, floats as text,
-- the atomic counters of the system's allocator and the code of expressions, an interface here, which
-- calls LLVM; the driver and the system files call the operating system. The repository holds neither.
mod Prelude
pub mod Bits
pub mod Lexer
pub mod Ast
pub mod Stmt
pub mod Units
pub mod Const
pub mod Eval
pub mod Types
pub mod Memory
pub mod Arrays
pub mod Strings
pub mod Format
pub mod Gen
pub mod Parser
mod Tests
