-- ===== src/Tests.antt =====
-- Runs of the model on small inputs.
mod LexerTests
mod LexerWitnesses
mod ParserTests
mod ParserWitnesses
mod TypesWitnesses
mod MemoryWitnesses
mod TextWitnesses
mod DeclaredWitnesses
mod GenWitnesses
