-- ===== src/Tests/GenWitnesses.antt =====
-- The theorems on code generation at concrete inputs.
use rox.Gen.Emit.{FnTraits}
use rox.Ast.{Expr, Attrs, more_attrs}
use rox.Gen.Prepass.{prepass_fns, prepass, gen_fn_type, export_of, fn_traits, boolean}
use rox.Gen.UnitGen.{library_fns}
use rox.Gen.Declares.{prepass_fns-Returns, fn_traits-noredzone}
use rox.Parser.Number.{starts_with}
use rox.Eval.{eval}
use rox.Gen.Lookup.{backwards}
use rox.Prelude.{
  arith, ◌++◌, codes, equal, ◌+◌, ◌≡◌, refl, true, false, Option, none, some, List, [], ◌∷◌, ℕ,
}
use rox.Ast.{Args, tuple_type, args_type, no_elems, no_attrs, no_types, tuple_expr, no_exprs}
use rox.Stmt.{Stmt, no_stmts, more_stmts, no_stmt}
use rox.Units.{AstFn}
use rox.Lexer.Char.{Bytes}
use rox.Types.Make.{make_ptr, make_fn, ptr_layout, u8_type}
use rox.Gen.{nothing_declared}
use rox.Gen.TypeGen.{gen_effects, gen_types, gen_args, gen_type, unit_type, gen_elems}
use rox.Gen.Resolve.{resolve}
use rox.Gen.Scopes.{Var, Value, CgScope, new_scope, reg, lookup_let, lookup_first}
use rox.Gen.Lookup.{visible, lookup_let-visible}
use rox.Gen.Emit.{Emitted, Expressions, Building, Instr, and_then, build, exhausted}
use rox.Gen.Assign.{FnVar, Unit_, fn_addr}
use rox.Gen.StmtGen.{gen_stmt, gen_return}
use rox.Gen.Defers.{Returns, run_list, all_deferred, gen_return-all_deferred}
use rox.Gen.Returning.{returning, empty_block, gen_stmt-exhausted}
use rox.Tests.DeclaredWitnesses.{here, known_nothing, chain}

abbrev variable : Bytes → ℕ → Var
variable x n = record { name = x; addr = record { type = u8_type; ref = reg n } }

abbrev two_scopes : List CgScope
two_scopes =
    record new_scope {
      vars = variable (codes "x") 1 ∷ variable (codes "y") 2 ∷ variable (codes "x") 3 ∷ [];
    }
    ∷ record new_scope { vars = variable (codes "z") 4 ∷ [] }
    ∷ []

lookup_let-visible_example :
    lookup_let two_scopes (codes "x") ≡ lookup_first (visible two_scopes) (codes "x")
lookup_let-visible_example = lookup_let-visible two_scopes (codes "x")

-- A function of nothing that returns nothing.
abbrev main_addr : Value
main_addr = record {
  type = make_ptr ptr_layout (some (make_fn unit_type unit_type unit_type unit_type)) none;
  ref = reg 0;
}

-- Expressions that are a new register each.
abbrev next_reg : Building → Value × Building
next_reg b = (record { type = u8_type; ref = reg b.fresh }, record b { fresh = b.fresh + 1 })

abbrev some_reg : Building → Option Value × Building
some_reg b = (some (next_reg b).0, (next_reg b).1)

abbrev registers : Expressions
registers = record {
  gen_value = λ e t. some_reg;
  gen_addr = λ e. some_reg;
  gen_type = λ e t b. (some u8_type, b);
  store = λ a v b. (true, b);
  load = λ a. next_reg;
  value_at = λ v i. some_reg;
  field_addr = λ v i. next_reg;
  const_value = λ c t. some_reg;
  zero_value = λ t. some_reg;
  arithmetic = λ o a v r. some_reg;
}

abbrev main_unit : Unit_
main_unit = record {
  known = known_nothing;
  fns = record { node = some 0; addr = main_addr } ∷ [];
  on = registers;
}

main-Returns : Returns main_unit 0
unfolding make_ptr make_fn fn_addr
main-Returns = record {
  addr = main_addr;
  fn_type = make_fn unit_type unit_type unit_type unit_type;
  ret_type = unit_type;
  found = refl;
  is_fn = refl;
  gives = refl;
}

abbrev building : List CgScope → Building
building cs = record {
  scopes = cs;
  declared = nothing_declared;
  fn = 0;
  entry = 0;
  fresh = 1;
  insert = 0;
  code = [];
  appended = [];
  alignments = [];
  functions = [];
  globals = [];
}

abbrev no_args : Args
no_args = args_type here no_elems

-- `fn main() { for { break; } return; }`.
abbrev main_fn : AstFn
main_fn = record {
  range = here;
  name = codes "main";
  objs = no_args;
  args = no_args;
  effects = no_types;
  ret = tuple_type here no_elems no_attrs;
  body = Stmt.block_stmt here (
      more_stmts
        (Stmt.for_stmt here no_stmt none no_stmt
          (Stmt.block_stmt here (more_stmts (Stmt.break_stmt here) no_stmts)) no_stmt)
        (more_stmts (Stmt.return_stmt here none) no_stmts));
  attrs = no_attrs;
}

-- A scope with two deferred statements.
abbrev deferring : Building
deferring = building (
    record new_scope {
      defers = empty_block here ∷ Stmt.expr_stmt here (tuple_expr here no_exprs) ∷ [];
    }
    ∷ [])

gen_return-all_deferred_example :
    gen_return main_unit (gen_stmt main_unit 9) here none deferring
    ≡ and_then
        (run_list (gen_stmt main_unit 9) (all_deferred deferring.scopes) deferring)
        (λ x. build Instr.ret_void)
gen_return-all_deferred_example =
    gen_return-all_deferred main_unit (gen_stmt main_unit 9) here deferring main-Returns

-- A scope in which `{ defer {} return; }` is deferred.
abbrev trapped : Building
trapped = building (record new_scope { defers = returning here ∷ [] } ∷ [])

gen_stmt-exhausted_example : gen_stmt main_unit 1000 (returning here) trapped ≡ exhausted
unfolding all_deferred backwards
gen_stmt-exhausted_example = gen_stmt-exhausted 1000 0 main_unit here [] trapped main-Returns refl

abbrev emitted_or : {A : Type 0} → A → Emitted A → A
emitted_or a (Emitted.done x b) = x
emitted_or a _ = a

abbrev state_of : {A : Type 0} → Emitted A → Building
state_of (Emitted.done x b) = b
state_of _ = building []

abbrev main_prepass : Emitted (List FnVar)
main_prepass = prepass_fns (resolve 9 chain) chain [] (codes "m") 0 (main_fn ∷ []) (building [])

prepass_fns-Returns_example :
    Returns
      (record {
        known = known_nothing;
        fns = library_fns ++ emitted_or [] main_prepass;
        on = registers;
      })
      0
unfolding prepass_fns prepass gen_fn_type gen_args gen_elems gen_types gen_effects gen_type
    export_of fn_traits starts_with
prepass_fns-Returns_example =
    prepass_fns-Returns (resolve 9 chain) chain [] (codes "m") (main_fn ∷ [])
      (emitted_or [] main_prepass) registers (building []) (state_of main_prepass) refl 0
      (omega arith)

-- `redzone(false)`.
abbrev red_attrs : Attrs
red_attrs = more_attrs here (codes "redzone") (Expr.bool_expr here false) no_attrs

abbrev no_traits : FnTraits
no_traits = record {
  symbol = codes "f";
  exported = false;
  noredzone = false;
  stack_alignments = [];
}

abbrev red_run : Emitted FnTraits
red_run = fn_traits known_nothing red_attrs no_traits (building [])

fn_traits-noredzone_example : (emitted_or no_traits red_run).noredzone ≡ false
unfolding fn_traits boolean eval equal
fn_traits-noredzone_example =
    fn_traits-noredzone known_nothing red_attrs no_traits (emitted_or no_traits red_run)
      (building []) (state_of red_run) refl
