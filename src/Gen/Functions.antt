-- ===== src/Gen/Functions.antt =====
-- Functions are generated one after another, each from empty scopes.
use rox.Gen.FnGen.{fn_body, in_scope}
use rox.Gen.Emit.{and_then}
use rox.Gen.Scopes.{new_scope}
use rox.Prelude.{
  ◌+◌, ◌≡◌, refl, if◌then◌else◌, Option, none, some, List, [], ◌∷◌, ◌==◌, ◌&&◌, ◌++◌, ℕ,
}
use rox.Ast.{AstType, Elems, no_elems, elem, named_elem}
use rox.Units.{AstFn}
use rox.Lexer.Char.{Bytes}
use rox.Types.{CgType, types, nth, count}
use rox.Const.{ConstFields, field, last_field}
use rox.Gen.{Gen, Outcome, made, failed, broken, spent}
use rox.Gen.Scopes.{CgScope, Value, param}
use rox.Gen.Emit.{Building, Instr, terminated}
use rox.Gen.Assign.{Unit_, deref, fn_addr, is_tuple}
use rox.Gen.FnGen.{
  Arg, on_types, lifted, elems_of, elem_count, labels, has_effects, no_scopes, set_entry,
  insert_block, add_using, gen_params, gen_usings, gen_effect_usings, copy_args, return_zero,
  end_fn, gen_fn, gen_fns,
}
use rox.Gen.Keeps.{
  Keeps-position, Keeps-append_block, Keeps-needed, Keeps-build, Keeps-call, Keeps-create_block,
  Keeps-emit_alloca, Keeps-last_scope, Keeps-read, Keeps-bind, Keeps-if, Keeps-pure, Keeps,
}
use rox.Gen.Holds.{
  Holds-pop_scope, holds_exhausted, Kept_refl, holds_unsound, Holds-needed, holds_refused,
  Holds-and_then, Kept, holds_done, Holds, IsQuiet,
}
use rox.Gen.Balanced.{gen_stmt-Keeps}

pub on_types-Keeps : (m : Gen CgType) → Keeps (on_types m)
on_types-Keeps m cs b k = go (m b.declared)
  where
    go : (o : Outcome CgType) → Holds (Kept cs) (lifted o b)
    go (made t s) = holds_done t _ k
    go (failed s) = holds_refused
    go broken = holds_unsound
    go spent = holds_exhausted

set_entry-Keeps : (n : ℕ) → Keeps (set_entry n)
set_entry-Keeps n cs b k = holds_done tt _ k

insert_block-Keeps : Keeps insert_block
insert_block-Keeps cs b k = holds_done b.insert b k

add_using-Keeps : (n : Option Bytes) (a : Value) → Keeps (add_using n a)
add_using-Keeps none a = Keeps-pure tt
add_using-Keeps (some n) a =
    Keeps-last_scope (λ c. record c { usings = c.usings ++ (record { name = n; addr = a } ∷ []) })
      (λ c. refl)

module _ (gen : AstType → Option Bytes → Gen CgType) (u : Unit_) (q : IsQuiet u.on) where
  gen_params-Keeps : (i : ℕ) (es : Elems) → Keeps (gen_params gen u i es)
  unfolding gen_params
  gen_params-Keeps i no_elems = Keeps-pure []
  gen_params-Keeps i (elem t es) = gen_params-Keeps (i + 1) es
  gen_params-Keeps i (named_elem n t es) = Keeps-bind (on_types-Keeps (gen t none)) (λ c.
      Keeps-bind (Keeps-emit_alloca c) (λ a.
        Keeps-bind
          (Keeps-last_scope
            (λ d. record d { vars = d.vars ++ (record { name = n; addr = a } ∷ []) }) (λ d. refl))
          (λ x.
            Keeps-bind (gen_params-Keeps (i + 1) es)
              (λ args. Keeps-pure (record { addr = a; index = i } ∷ args)))))

  gen_usings-Keeps : (src : Value) (i : ℕ) (fs : ConstFields) → Keeps (gen_usings gen u src i fs)
  unfolding gen_usings
  gen_usings-Keeps src i last_field = Keeps-pure tt
  gen_usings-Keeps src i (field n c fs) =
      Keeps-bind (Keeps-call (u.on.field_addr src i) (q.field_addr src i))
        (λ a. Keeps-bind (add_using-Keeps n a) (λ x. gen_usings-Keeps src (i + 1) fs))

  effects-Keeps : (t : CgType) → Keeps (gen_effect_usings gen u t)
  effects-Keeps t =
      Keeps-if (has_effects t) (Keeps-bind (Keeps-read (labels t)) (gen_usings-Keeps _ 0))
        (Keeps-pure tt)

  copy_args-Keeps : (xs : List Arg) → Keeps (copy_args gen u xs)
  unfolding copy_args
  copy_args-Keeps [] = Keeps-pure tt
  copy_args-Keeps (x ∷ xs) = Keeps-bind (Keeps-read (deref x.addr.type)) (λ t.
      Keeps-bind
        (Keeps-call (u.on.store x.addr (record { type = t; ref = param x.index }))
          (q.store x.addr (record { type = t; ref = param x.index })))
        (λ y. copy_args-Keeps xs))

  return_zero-Keeps : (t : CgType) → Keeps (return_zero gen u t)
  return_zero-Keeps t =
      Keeps-bind (Keeps-call (u.on.zero_value t) (q.zero_value t))
        (λ o. Keeps-bind (Keeps-needed o) (λ v. Keeps-build (Instr.ret v.ref)))

  end_fn-Keeps : (n : ℕ) (t : CgType) → Keeps (end_fn gen u n t)
  end_fn-Keeps n t cs b k =
      Keeps-if (terminated b.code n) (Keeps-pure tt)
        (Keeps-if (is_tuple t && count (types t) == 0) (Keeps-build Instr.ret_void) (
          Keeps-if (is_tuple t && count (types t) == 1)
            (Keeps-bind (Keeps-read (nth (types t) 0)) return_zero-Keeps) (return_zero-Keeps t)))
        cs b k

  -- The scope of a function from the types of its parts to its end.
  fn_body-Keeps :
      (fuel : ℕ) (f : AstFn) (effects ret_t : CgType) → Keeps (fn_body gen u fuel f effects ret_t)
  unfolding fn_body
  fn_body-Keeps fuel f effects ret_t = Keeps-bind Keeps-create_block (λ entry_bb.
      Keeps-bind (Keeps-append_block entry_bb) (λ x1. Keeps-bind (Keeps-position entry_bb) (λ x2.
        Keeps-bind (set_entry-Keeps entry_bb) (λ x3.
          Keeps-bind (gen_params-Keeps (if has_effects effects then 1 else 0) (elems_of f.objs))
            (λ objs.
              Keeps-bind
                (gen_params-Keeps
                  ((if has_effects effects then 1 else 0) + elem_count (elems_of f.objs))
                  (elems_of f.args))
                (λ args. Keeps-bind Keeps-create_block (λ join_bb.
                  Keeps-bind (Keeps-append_block join_bb) (λ x4.
                    Keeps-bind (Keeps-position join_bb) (λ x5.
                      Keeps-bind (effects-Keeps effects) (λ x6.
                        Keeps-bind (copy_args-Keeps (objs ++ args)) (λ x7.
                          Keeps-bind (gen_stmt-Keeps u q fuel f.body) (λ x8.
                            Keeps-bind insert_block-Keeps (λ resume_bb.
                              Keeps-bind (Keeps-position entry_bb) (λ x9.
                                Keeps-bind (Keeps-build (Instr.br join_bb)) (λ y1.
                                  Keeps-bind (Keeps-position resume_bb)
                                    (λ y2. end_fn-Keeps resume_bb ret_t))))))))))))))))

  fn-Holds :
      (fuel i : ℕ) (f : AstFn) (b : Building)
      → b.scopes ≡ []
      → Holds (λ cs. cs ≡ []) (gen_fn gen u fuel i f b)
  unfolding gen_fn
  fn-Holds fuel i f b e = go b.scopes e
    where
      go :
          (cs : List CgScope)
          → cs ≡ []
          → Holds (λ ds. ds ≡ []) (and_then (no_scopes cs b) (λ x. in_scope gen u fuel i f))
      go [] h =
          Holds-and_then _ (Holds-needed {P = λ ds. ds ≡ []} b e (fn_addr u.fns i)) (λ addr b1 e1.
            let inner = new_scope ∷ b1.scopes in
            let start : Building = record b1 { scopes = inner; fn = i } in
            Holds-and_then _ (Keeps-read (deref addr.type) inner start (Kept_refl inner))
              (λ fn_t b2 k2.
                Holds-and_then _ (Keeps-read (nth (types fn_t) 2) inner b2 k2) (λ effects b3 k3.
                  Holds-and_then _ (Keeps-read (nth (types fn_t) 3) inner b3 k3) (λ ret_t b4 k4.
                    Holds-and_then _ (fn_body-Keeps fuel f effects ret_t inner b4 k4)
                      (λ x b5 k5. Holds-pop_scope b5 new_scope b1.scopes k5 e1)))))
      go (c ∷ cs) h = absurd (cc h)

-- If each operation on expressions and values leaves the scopes below the innermost one and the
-- loop of that one alone, then functions that are generated one after another from empty scopes
-- each start with empty scopes, as `AstFn::codegen` asserts, and leave none behind where the
-- code is generated; on any fuel, whatever is in the functions.
pub gen_fns-no_scopes :
    (gen : AstType → Option Bytes → Gen CgType) (u : Unit_) (fuel i : ℕ) (fs : List AstFn)
    (b : Building)
    → IsQuiet u.on
    → b.scopes ≡ []
    → Holds (λ cs. cs ≡ []) (gen_fns gen u fuel i fs b)
unfolding gen_fns
gen_fns-no_scopes gen u fuel i [] b q e = holds_done tt b e
gen_fns-no_scopes gen u fuel i (f ∷ fs) b q e =
    Holds-and_then _ (fn-Holds gen u q fuel i f b e)
      (λ x b' e'. gen_fns-no_scopes gen u fuel (i + 1) fs b' q e')
