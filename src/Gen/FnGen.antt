-- ===== src/Gen/FnGen.antt =====
-- cg_unit.cpp: `AstFn::codegen`, and the loop of `AstUnit::codegen` over the functions.
use rox.Prelude.{
  suc, ◌+◌, Bool, if◌then◌else◌, Option, none, some, List, [], ◌∷◌, ◌==◌, ◌&&◌, not, ◌++◌, ℕ,
}
use rox.Ast.{AstType, Args, Elems, args_type, no_elems, elem, named_elem}
use rox.Units.{AstFn}
use rox.Lexer.Char.{Bytes}
use rox.Types.{CgType, cg_type, types, nth, count}
use rox.Const.{ConstFields, field, last_field}
use rox.Types.Make.{addrof}
use rox.Gen.{Gen, Outcome, made, failed, broken, spent}
use rox.Gen.Assign.{Unit_, deref, fn_addr, is_tuple}
use rox.Gen.StmtGen.{gen_stmt}
use rox.Gen.Scopes.{Value, param, CgScope}
use rox.Gen.Emit.{
  pop_scope, br, position, append_block, create_block, push_scope, ret, ret_void, build, call,
  emit_alloca, last_scope, needed, read, terminated, Step, refused, unsound, asserted, exhausted,
  done, pure, ◌>>=◌, ◌>>◌,
}

-- Storage for an argument, and the number of the parameter that is copied there.
pub record Arg : Type 0 where
  pub addr : Value
  pub index : ℕ

-- A run on the types that are declared.
abbrev pub lifted : Outcome CgType → Step CgType
lifted (made t s) b = done t (record b { declared = s })
lifted (failed s) b = refused
lifted broken b = unsound
lifted spent b = exhausted

abbrev pub on_types : Gen CgType → Step CgType
on_types m b = lifted (m b.declared) b

abbrev pub elems_of : Args → Elems
elems_of (args_type r es) = es

unfoldable pub elem_count : Elems → ℕ
elem_count no_elems = 0
elem_count (elem t es) = suc (elem_count es)
elem_count (named_elem n t es) = suc (elem_count es)

abbrev pub labels : CgType → Option ConstFields
labels (cg_type _ _ _ _ fs _) = fs

-- `effects != cg.types.unit()`: only functions with no effects have the unit type there.
abbrev pub has_effects : CgType → Bool
has_effects t = not (count (types t) == 0)

-- The scopes are empty at the start of a function.
abbrev pub no_scopes : List CgScope → Step (Unit {0})
no_scopes [] b = done tt b
no_scopes (c ∷ cs) b = asserted

abbrev pub assert_no_scopes : Step (Unit {0})
assert_no_scopes b = no_scopes b.scopes b

abbrev pub start_fn : ℕ → Step (Unit {0})
start_fn i b = done tt (record b { fn = i })

abbrev pub set_entry : ℕ → Step (Unit {0})
set_entry n b = done tt (record b { entry = n })

abbrev pub insert_block : Step ℕ
insert_block b = done b.insert b

abbrev pub add_named : Bytes → Value → Step (Unit {0})
add_named name a =
    last_scope (λ c. record c { vars = c.vars ++ (record { name = name; addr = a } ∷ []) })

abbrev pub add_using : Option Bytes → Value → Step (Unit {0})
add_using none a = pure tt
add_using (some name) a =
    last_scope (λ c. record c { usings = c.usings ++ (record { name = name; addr = a } ∷ []) })

module _ (gen : AstType → Option Bytes → Gen CgType) (u : Unit_) where
  -- Storage for the arguments that have a name.
  unfoldable pub gen_params : ℕ → Elems → Step (List Arg)
  gen_params i no_elems = pure []
  gen_params i (elem t es) = gen_params (i + 1) es
  gen_params i (named_elem name t es) = do
    c ← on_types (gen t none)
    a ← emit_alloca c
    add_named name a
    args ← gen_params (i + 1) es
    pure (record { addr = a; index = i } ∷ args)

  -- The effects are fields of what the first parameter points to.
  unfoldable pub gen_usings : Value → ℕ → ConstFields → Step (Unit {0})
  gen_usings src i last_field = pure tt
  gen_usings src i (field name c fs) = do
    a ← call (u.on.field_addr src i)
    add_using name a
    gen_usings src (i + 1) fs

  abbrev pub gen_effect_usings : CgType → Step (Unit {0})
  gen_effect_usings t =
      if has_effects t
      then (do fs ← read (labels t); gen_usings (record { type = addrof t; ref = param 0 }) 0 fs)
      else pure tt

  -- Whether a store succeeds is not looked at.
  unfoldable pub copy_args : List Arg → Step (Unit {0})
  copy_args [] = pure tt
  copy_args (x ∷ xs) = do
    t ← read (deref x.addr.type)
    stored ← call (u.on.store x.addr (record { type = t; ref = param x.index }))
    copy_args xs

  abbrev pub return_zero : CgType → Step (Unit {0})
  return_zero t = do o ← call (u.on.zero_value t); v ← needed o; build (ret v.ref)

  -- A return at the end of a function that has none there.
  abbrev pub implicit_return : CgType → Step (Unit {0})
  implicit_return t =
      if is_tuple t && count (types t) == 0
      then build ret_void
      else if is_tuple t && count (types t) == 1
      then (do e ← read (nth (types t) 0); return_zero e)
      else return_zero t

  abbrev pub end_fn : ℕ → CgType → Step (Unit {0})
  end_fn resume_bb t b = (if terminated b.code resume_bb then pure tt else implicit_return t) b

  -- What is generated for a function in its scope: storage in the entry block, and the body behind
  -- the block that joins it.
  unfoldable pub fn_body : ℕ → AstFn → CgType → CgType → Step (Unit {0})
  fn_body fuel f effects ret_t = do
    entry_bb ← create_block
    append_block entry_bb
    position entry_bb
    set_entry entry_bb
    let first = if has_effects effects then 1 else 0
    objs ← gen_params first (elems_of f.objs)
    args ← gen_params (first + elem_count (elems_of f.objs)) (elems_of f.args)
    join_bb ← create_block
    append_block join_bb
    position join_bb
    gen_effect_usings effects
    copy_args (objs ++ args)
    gen_stmt u fuel f.body
    resume_bb ← insert_block
    position entry_bb
    build (br join_bb)
    position resume_bb
    end_fn resume_bb ret_t

  abbrev pub in_scope : ℕ → ℕ → AstFn → Step (Unit {0})
  in_scope fuel i f = do
    addr ← needed (fn_addr u.fns i)
    push_scope
    start_fn i
    fn_t ← read (deref addr.type)
    effects ← read (nth (types fn_t) 2)
    ret_t ← read (nth (types fn_t) 3)
    fn_body fuel f effects ret_t
    pop_scope

  unfoldable pub gen_fn : ℕ → ℕ → AstFn → Step (Unit {0})
  gen_fn fuel i f = do assert_no_scopes; in_scope fuel i f

  unfoldable pub gen_fns : ℕ → ℕ → List AstFn → Step (Unit {0})
  gen_fns fuel i [] = pure tt
  gen_fns fuel i (f ∷ fs) = do gen_fn fuel i f; gen_fns fuel (i + 1) fs
