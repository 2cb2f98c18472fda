-- ===== src/Gen/UnitKeeps.antt =====
-- A whole unit is generated from empty scopes to empty scopes.
use rox.Gen.Assigned.{attribute-Keeps}
use rox.Gen.Emit.{FnTraits, GlobalTraits, Global}
use rox.Gen.Prepass.{add_fn}
use rox.Gen.UnitGen.{add_global}
use rox.Types.Make.{addrof}
use rox.Gen.Prepass.{nameof}
use mathlib.Core.Path.{subst}
use rox.Prelude.{
  codes, length, drop, ◌+◌, ◌≡◌, refl, Bool, false, if◌then◌else◌, Option, none, some, List, [],
  ◌∷◌, ◌++◌, ℕ, sym,
}
use rox.Ast.{Expr, Attrs, no_attrs, more_attrs, expr_range}
use rox.Stmt.{Stmt}
use rox.Units.{AstFn, AstUnit, NameNode}
use rox.Lexer.Char.{Bytes}
use rox.Lexer.Token.{Range}
use rox.Types.{CgType}
use rox.Const.{Const}
use rox.Eval.{Known, eval}
use rox.Parser.Number.{starts_with}
use rox.Gen.{equal, Gen, Surroundings, Outcome, made, failed, broken, spent}
use rox.Gen.TypeGen.{gen_type}
use rox.Gen.Resolve.{resolve, gen_declared}
use rox.Gen.Scopes.{Var, CgScope, lookup_first}
use rox.Gen.Emit.{Building, Expressions}
use rox.Gen.Prepass.{
  nameof, boolean, prepass, prepass_fns, export_of, fn_traits, gen_fn_type, fn_ref, new_ref,
  with_redzone, with_alignment, redzone_name, alignstack_name, export_name, runtime_prefix,
}
use rox.Gen.UnitGen.{
  gen_unit, gen_all_fns, gen_global, gen_globals, global_traits, const_of, declare_types, settled,
  prefix_of, surroundings, library_fns, runtime_fns, list_global, with_export, plain_traits,
}
use rox.Gen.Functions.{gen_fns-no_scopes, on_types-Keeps}
use rox.Gen.Holds.{
  Holds-and_then, holds_exhausted, holds_refused, kept_none, Holds, holds_done, holds_unsound,
  IsQuiet, Kept,
}
use rox.Gen.Keeps.{
  Keeps-needed, Keeps-call, Keeps-read, Keeps-refuse, Keeps-bind, Keeps-if, Keeps-pure,
  Keeps-report, Keeps,
}

export_of-Keeps : (k : Known) (as_ : Attrs) → Keeps (export_of k as_)
unfolding export_of boolean
export_of-Keeps k no_attrs = Keeps-pure false
export_of-Keeps k (more_attrs r name e rest) =
    Keeps-if (equal name export_name) (attribute-Keeps _ _ (eval k e)) (export_of-Keeps k rest)

fn_traits-Keeps : (k : Known) (as_ : Attrs) (t : FnTraits) → Keeps (fn_traits k as_ t)
unfolding fn_traits boolean
fn_traits-Keeps k no_attrs t = Keeps-pure t
fn_traits-Keeps k (more_attrs r name e rest) t =
    Keeps-if (equal name redzone_name)
      (Keeps-bind (attribute-Keeps _ _ (eval k e)) (λ v. fn_traits-Keeps k rest (with_redzone v t)))
      (Keeps-if (equal name alignstack_name)
        (Keeps-bind (attribute-Keeps _ _ (eval k e))
          (λ n. fn_traits-Keeps k rest (with_alignment n t)))
        (fn_traits-Keeps k rest t))

global_traits-Keeps : (k : Known) (as_ : Attrs) (t : GlobalTraits) → Keeps (global_traits k as_ t)
unfolding global_traits
global_traits-Keeps k no_attrs t = Keeps-pure t
global_traits-Keeps k (more_attrs r name e rest) t =
    Keeps-if (equal name (codes "section"))
      (Keeps-bind (attribute-Keeps _ _ (eval k e))
        (λ s. global_traits-Keeps k rest (record t { section = some s })))
      (Keeps-if (equal name (codes "align"))
        (Keeps-bind (attribute-Keeps _ _ (eval k e))
          (λ n. global_traits-Keeps k rest (record t { alignments = n ∷ t.alignments })))
        (Keeps-if (equal name (codes "used"))
          (Keeps-bind (attribute-Keeps _ _ (eval k e)) (λ v. global_traits-Keeps k rest t))
          (Keeps-if (equal name (codes "export"))
            (Keeps-bind (attribute-Keeps _ _ (eval k e))
              (λ v. global_traits-Keeps k rest (with_export v t)))
            (Keeps-report r _))))

add_fn-Keeps : (t : FnTraits) → Keeps (add_fn t)
add_fn-Keeps t cs b k = holds_done tt _ k

add_global-Keeps : (g : Global) → Keeps (add_global g)
add_global-Keeps g cs b k = holds_done tt _ k

new_ref-Keeps : Keeps new_ref
new_ref-Keeps cs b k = holds_done _ _ k

fn_ref-Keeps : (xs : List Var) (name : Bytes) → Keeps (fn_ref xs name)
fn_ref-Keeps xs name =
    Keeps-if (starts_with name runtime_prefix)
      (Keeps-bind (Keeps-read (lookup_first xs (drop (length runtime_prefix) name)))
        (λ v. Keeps-pure v.addr.ref))
      new_ref-Keeps

module _ (look : Range → Bytes → Gen CgType) (env : Surroundings) where
  prepass-Keeps :
      (xs : List Var) (p : Bytes) (i : ℕ) (f : AstFn) → Keeps (prepass look env xs p i f)
  unfolding prepass
  prepass-Keeps xs p i f = Keeps-bind (on_types-Keeps (gen_fn_type look env f)) (λ t.
      Keeps-bind (export_of-Keeps env.known f.attrs) (λ x.
        Keeps-bind (fn_ref-Keeps xs f.name) (λ ref.
          Keeps-bind
            (fn_traits-Keeps env.known f.attrs (record {
              symbol = if x then f.name else nameof p f.name;
              exported = x;
              noredzone = false;
              stack_alignments = [];
            }))
            (λ s. Keeps-bind (add_fn-Keeps s) (λ y.
              Keeps-pure
                (record { node = some i; addr = record { type = addrof t; ref = ref } }, s))))))

  prepass_fns-Keeps :
      (xs : List Var) (p : Bytes) (i : ℕ) (fs : List AstFn) → Keeps (prepass_fns look env xs p i fs)
  unfolding prepass_fns
  prepass_fns-Keeps xs p i [] = Keeps-pure []
  prepass_fns-Keeps xs p i (f ∷ fs) =
      Keeps-bind (prepass-Keeps xs p i f)
        (λ v. Keeps-bind (prepass_fns-Keeps xs p (i + 1) fs) (λ vs. Keeps-pure (v.0 ∷ vs)))

const_of-Keeps : (r : Range) (o : Option Const) → Keeps (const_of r o)
const_of-Keeps r none = Keeps-report r _
const_of-Keeps r (some c) = Keeps-pure c

module _ (on : Expressions) (q : IsQuiet on) where
  gen_global-Keeps :
      (p : Bytes) (k : Known) (name : Bytes) (e : Expr) (as_ : Attrs)
      → Keeps (gen_global on p k name e as_)
  unfolding gen_global
  gen_global-Keeps p k name e as_ = Keeps-bind (const_of-Keeps (expr_range e) (eval k e)) (λ c.
      Keeps-bind (Keeps-call (on.gen_type e none) (q.gen_type e none)) (λ o.
        Keeps-bind (Keeps-needed o) (λ t.
          Keeps-bind (Keeps-call (on.const_value c t) (q.const_value c t)) (λ v.
            Keeps-bind (Keeps-needed v) (λ src. Keeps-bind new_ref-Keeps (λ dst.
              Keeps-bind (global_traits-Keeps (list_global k name c) as_ plain_traits) (λ s.
                Keeps-bind
                  (add_global-Keeps (record {
                    symbol = nameof p name;
                    addr = record { type = addrof src.type; ref = dst };
                    initial = src.ref;
                    traits = s;
                  }))
                  (λ y. Keeps-pure (list_global k name c)))))))))

  gen_globals-Keeps : (p : Bytes) (k : Known) (ss : List Stmt) → Keeps (gen_globals on p k ss)
  unfolding gen_globals
  gen_globals-Keeps p k [] = Keeps-pure k
  gen_globals-Keeps p k (Stmt.let_stmt r name e as_ ∷ ss) =
      Keeps-bind (gen_global-Keeps p k name e as_) (λ k'. gen_globals-Keeps p k' ss)
  gen_globals-Keeps p k (Stmt.block_stmt a b ∷ ss) = Keeps-refuse
  gen_globals-Keeps p k (Stmt.return_stmt a b ∷ ss) = Keeps-refuse
  gen_globals-Keeps p k (Stmt.defer_stmt a b ∷ ss) = Keeps-refuse
  gen_globals-Keeps p k (Stmt.break_stmt a ∷ ss) = Keeps-refuse
  gen_globals-Keeps p k (Stmt.continue_stmt a ∷ ss) = Keeps-refuse
  gen_globals-Keeps p k (Stmt.if_stmt a b c d e ∷ ss) = Keeps-refuse
  gen_globals-Keeps p k (Stmt.using_stmt a b c ∷ ss) = Keeps-refuse
  gen_globals-Keeps p k (Stmt.for_stmt a b c d e f ∷ ss) = Keeps-refuse
  gen_globals-Keeps p k (Stmt.expr_stmt a b ∷ ss) = Keeps-refuse
  gen_globals-Keeps p k (Stmt.assign_stmt a b c d ∷ ss) = Keeps-refuse

declare_types-Keeps : (m : Gen (Unit {0})) → Keeps (declare_types m)
declare_types-Keeps m cs b k = go (m b.declared)
  where
    go : (o : Outcome (Unit {0})) → Holds (Kept cs) (settled o b)
    go (made t s) = holds_done tt _ k
    go (failed s) = holds_refused
    go broken = holds_unsound
    go spent = holds_exhausted

prefix_of-Keeps : (o : Option NameNode) → Keeps (prefix_of o)
prefix_of-Keeps none = Keeps-report _ _
prefix_of-Keeps (some n) =
    Keeps-if (equal n.name (codes "intrinsics")) (Keeps-report n.range _) (Keeps-pure n.name)

still_empty : {xs : List CgScope} → Kept [] xs → xs ≡ []
still_empty kept_none = refl

-- If each operation on expressions and values leaves the scopes below the innermost one and the
-- loop of that one alone, then code generation of any unit from empty scopes, on any fuel,
-- starts each function with empty scopes, as `AstFn::codegen` asserts, and leaves no scope
-- behind where it succeeds.
pub gen_unit-no_scopes :
    (fuel : ℕ) (on : Expressions) (infers : Expr → Bool) (k : Known) (unit : AstUnit) (b : Building)
    → IsQuiet on
    → b.scopes ≡ []
    → Holds (λ cs. cs ≡ []) (gen_unit fuel on infers k unit b)
unfolding gen_unit gen_all_fns
gen_unit-no_scopes fuel on infers k unit b q e =
    let start = subst (Kept []) (sym e) kept_none in
    Holds-and_then _ (prefix_of-Keeps unit.module_ [] b start) (λ p b1 k1.
      Holds-and_then _ (gen_globals-Keeps on q p k unit.lets [] b1 k1) (λ known b2 k2.
        let env = surroundings unit known infers in
        Holds-and_then _ (declare_types-Keeps (gen_declared fuel env) [] b2 k2) (λ x b3 k3.
          Holds-and_then _
            (prepass_fns-Keeps (resolve fuel env) env runtime_fns p 0 unit.fns [] b3 k3)
            (λ vs b4 k4.
              gen_fns-no_scopes (gen_type (resolve fuel env) env)
                (record { known = known; fns = library_fns ++ vs; on = on }) fuel 0 unit.fns b4 q
                (still_empty k4)))))
