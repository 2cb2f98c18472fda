-- ===== src/Gen/Emit.antt =====
-- The state of code generation: scopes, LLVM's builder as far as its basic blocks go, and the
-- operations on expressions, which cg_expr.cpp and cg_value.cpp have, as an interface.
use rox.Const.{Const}
use rox.Prelude.{◌+◌, Bool, true, false, if◌then◌else◌, Option, none, some, List, [], ◌∷◌, ◌==◌, ℕ}
use rox.Ast.{Expr}
use rox.Stmt.{StoreOp}
use rox.Lexer.Token.{Range}
use rox.Types.{CgType, align}
use rox.Types.Make.{addrof}
use rox.Gen.{Bytes, Declared}
use rox.Gen.Scopes.{new_scope, Ref, Value, CgScope, reg}

-- An instruction that is built at the end of a block. The interface has others of its own.
pub data Instr : Type 0 where
  br : ℕ → Instr
  cond_br : Ref → ℕ → ℕ → Instr
  ret : Ref → Instr
  ret_void : Instr
  alloca : ℕ → CgType → Instr
  memcpy : Ref → Ref → ℕ → ℕ → Instr
  other : ℕ → Instr

abbrev pub is_terminator : Instr → Bool
is_terminator (br b) = true
is_terminator (cond_br c b d) = true
is_terminator (ret v) = true
is_terminator ret_void = true
is_terminator _ = false

-- What is set for a function of LLVM.
pub record FnTraits : Type 0 where
  pub symbol : Bytes
  pub exported : Bool
  pub noredzone : Bool
  pub stack_alignments : List ℕ

-- What is set for a global of LLVM.
pub record GlobalTraits : Type 0 where
  pub exported : Bool
  pub section : Option Bytes
  pub alignments : List ℕ

-- A global of LLVM.
pub record Global : Type 0 where
  pub symbol : Bytes
  pub addr : Value
  pub initial : Ref
  pub traits : GlobalTraits

-- The part of `Cg` that changes below a unit, and LLVM's builder: the number of the next block or
-- register, the block that it builds at the end of, the instructions with their blocks, the last one
-- first, the blocks that were appended to a function, the alignments that were set,
-- and the functions and globals of the module.
pub record Building : Type 0 where
  pub scopes : List CgScope
  pub declared : Declared
  pub fn : ℕ
  pub entry : ℕ
  pub fresh : ℕ
  pub insert : ℕ
  pub code : List (ℕ × Instr)
  pub appended : List ℕ
  pub alignments : List (Ref × ℕ)
  pub functions : List FnTraits
  pub globals : List Global

-- What is reported.
pub data Trouble : Type 0 where
  no_return_type no_loop_to_break no_loop_to_continue unknown_attribute not_integral
        undeclared_effect assign_to_atomic assign_mismatch not_boolean not_constant not_string
        no_module bad_module_name :
      Trouble

-- A result, `false` with a report or with none of its own, a read of what is not there, a failed
-- assertion, or no fuel left.
pub data Emitted (A : Type 0) : Type 0 where
  done : A → Building → Emitted A
  reported : Range → Trouble → Emitted A
  refused : Emitted A
  unsound : Emitted A
  asserted : Emitted A
  exhausted : Emitted A

abbrev pub Step : Type 0 → Type 0
Step A = Building → Emitted A

abbrev pub pure : {A : Type 0} → A → Step A
pure a b = done a b

abbrev pub refuse : {A : Type 0} → Step A
refuse b = refused

abbrev pub report : {A : Type 0} → Range → Trouble → Step A
report r t b = reported r t

abbrev pub and_then : {A B : Type 0} → Emitted A → (A → Step B) → Emitted B
and_then (done a b) f = f a b
and_then (reported r t) f = reported r t
and_then refused f = refused
and_then unsound f = unsound
and_then asserted f = asserted
and_then exhausted f = exhausted

infixl 5 ◌>>=◌ ◌>>◌
abbrev pub ◌>>=◌ : {A B : Type 0} → Step A → (A → Step B) → Step B
◌>>=◌ m f b = and_then (m b) f

abbrev pub ◌>>◌ : {B : Type 0} → Step (Unit {0}) → Step B → Step B
m >> k = m >>= λ _. k

-- `if (!x) return false;`.
abbrev pub needed : {A : Type 0} → Option A → Step A
needed none = refuse
needed (some a) = pure a

-- What is read without a test.
abbrev pub read : {A : Type 0} → Option A → Step A
read none b = unsound
read (some a) b = done a b

abbrev pub guard : Bool → Step (Unit {0})
guard true = pure tt
guard false = refuse

-- The operations on expressions and values, each with its result, which may be null, and the state
-- behind it.
pub record Expressions : Type 0 where
  pub gen_value : Expr → Option CgType → Building → Option Value × Building
  pub gen_addr : Expr → Building → Option Value × Building
  pub gen_type : Expr → Option CgType → Building → Option CgType × Building
  pub store : Value → Value → Building → Bool × Building
  pub load : Value → Building → Value × Building
  pub value_at : Value → ℕ → Building → Option Value × Building
  pub field_addr : Value → ℕ → Building → Value × Building
  pub const_value : Const → CgType → Building → Option Value × Building
  pub zero_value : CgType → Building → Option Value × Building
  pub arithmetic : StoreOp → Value → Value → Range → Building → Option Value × Building

abbrev pub call : {A : Type 0} → (Building → A × Building) → Step A
call f b = let (a, b') = f b in done a b'

-- LLVM's builder.
abbrev pub create_block : Step ℕ
create_block b = done b.fresh (record b { fresh = b.fresh + 1 })

abbrev pub append_block : ℕ → Step (Unit {0})
append_block n b = done tt (record b { appended = n ∷ b.appended })

abbrev pub position : ℕ → Step (Unit {0})
position n b = done tt (record b { insert = n })

abbrev pub build : Instr → Step (Unit {0})
build i b = done tt (record b { code = (b.insert, i) ∷ b.code })

-- `GetBasicBlockTerminator`: the last instruction of a block, where it is a terminator.
unfoldable pub terminated : List (ℕ × Instr) → ℕ → Bool
terminated [] n = false
terminated ((m, i) ∷ code) n = if m == n then is_terminator i else terminated code n

-- A branch from the block that is built, unless it has a terminator.
abbrev pub branch_on : ℕ → Step (Unit {0})
branch_on n b = if terminated b.code b.insert then done tt b else build (br n) b

-- `Cg::emit_alloca`, at the end of the entry block.
abbrev pub emit_alloca : CgType → Step Value
emit_alloca t b =
    done (record { type = addrof t; ref = reg b.fresh })
      (record b {
        fresh = b.fresh + 1;
        code = (b.entry, alloca b.fresh t) ∷ b.code;
        alignments = (reg b.fresh, align t) ∷ b.alignments;
      })

-- The scopes.
abbrev pub push_scope : Step (Unit {0})
push_scope b = done tt (record b { scopes = new_scope ∷ b.scopes })

abbrev pub drop_scope : Building → List CgScope → Emitted (Unit {0})
drop_scope b [] = refused
drop_scope b (c ∷ cs) = done tt (record b { scopes = cs })

abbrev pub pop_scope : Step (Unit {0})
pop_scope b = drop_scope b b.scopes

abbrev pub change : Building → (CgScope → CgScope) → List CgScope → Emitted (Unit {0})
change b f [] = unsound
change b f (c ∷ cs) = done tt (record b { scopes = f c ∷ cs })

-- A change of the innermost scope.
abbrev pub last_scope : (CgScope → CgScope) → Step (Unit {0})
last_scope f b = change b f b.scopes

abbrev pub top : List CgScope → Option CgScope
top [] = none
top (c ∷ cs) = some c

abbrev pub scopes_last : Step CgScope
scopes_last b = read (top b.scopes) b
