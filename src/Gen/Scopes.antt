-- ===== src/Gen/Scopes.antt =====
-- cg.h and cg.cpp: scopes and what is looked for in them. An array is a list that is searched from
-- its end; the scopes stand innermost first.
use rox.Prelude.{
  equal, length, get_elem?, zero, suc, if◌then◌else◌, Option, none, some, List, [], ◌∷◌, ℕ,
}
use rox.Stmt.{Stmt}
use rox.Types.{CgType}
use rox.Lexer.Char.{Bytes}

-- A value of LLVM: what an instruction gives, or a parameter of a function.
pub data Ref : Type 0 where
  reg : ℕ → Ref
  param : ℕ → Ref

-- `CgValue` and `CgAddr`, whose type is that of the address.
pub record Value : Type 0 where
  pub type : CgType
  pub ref : Ref

-- `CgVar`.
pub record Var : Type 0 where
  pub name : Bytes
  pub addr : Value

-- The basic blocks to go on with behind a turn of a loop, and behind the loop.
pub record Loop : Type 0 where
  pub post : ℕ
  pub exit : ℕ

pub record CgScope : Type 0 where
  pub vars : List Var
  pub tests : List Var
  pub defers : List Stmt
  pub usings : List Var
  pub loop : Option Loop

abbrev pub new_scope : CgScope
new_scope = record { vars = []; tests = []; defers = []; usings = []; loop = none }

-- `for (Ulen l = length, i = l - 1; i < l; i--)`: the element at `i`, then those below it.
unfoldable pub find_below : List Var → Bytes → ℕ → Option Var
find_below vs name zero = none
find_below vs name (suc i) =
    let rest = find_below vs name i in
    elim (get_elem? vs i) [ none ↦ rest | some v ↦ if equal v.name name then some v else rest ]

unfoldable pub find_last : List Var → Bytes → Option Var
find_last vs name = find_below vs name (length vs)

abbrev pub or_else : {A : Type 0} → Option A → Option A → Option A
or_else none o = o
or_else (some a) o = some a

-- `CgScope::lookup_let` and `CgScope::lookup_using`: the tests come first.
unfoldable pub scope_let : CgScope → Bytes → Option Var
scope_let c name = or_else (find_last c.tests name) (find_last c.vars name)

unfoldable pub scope_using : CgScope → Bytes → Option Var
scope_using c name = find_last c.usings name

-- `Cg::lookup_let`, `Cg::lookup_using` and `Cg::loop`.
unfoldable pub lookup_let : List CgScope → Bytes → Option Var
lookup_let [] name = none
lookup_let (c ∷ cs) name = or_else (scope_let c name) (lookup_let cs name)

unfoldable pub lookup_using : List CgScope → Bytes → Option Var
lookup_using [] name = none
lookup_using (c ∷ cs) name = or_else (scope_using c name) (lookup_using cs name)

unfoldable pub enclosing_loop : List CgScope → Option Loop
enclosing_loop [] = none
enclosing_loop (c ∷ cs) = or_else c.loop (enclosing_loop cs)

-- `Cg::lookup_fn`, and `Cg::intrinsic` over the intrinsics: the first one of the name.
unfoldable pub lookup_first : List Var → Bytes → Option Var
lookup_first [] name = none
lookup_first (v ∷ vs) name = if equal v.name name then some v else lookup_first vs name
