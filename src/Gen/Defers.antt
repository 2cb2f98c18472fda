-- ===== src/Gen/Defers.antt =====
-- When deferred statements are generated.
use rox.Prelude.{◌∙◌}
use mathlib.Core.Path.{fun_ext}
use rox.Prelude.{
  length, get_elem?, zero, suc, ◌≡◌, refl, Option, none, some, List, [], ◌∷◌, ◌++◌, ℕ, ap, sym,
}
use rox.Stmt.{Stmt}
use rox.Lexer.Token.{Range}
use rox.Types.{CgType, types, nth}
use rox.Gen.Scopes.{CgScope, Value}
use rox.Gen.Lookup.{backwards}
use rox.Gen.Emit.{
  Step, Building, Emitted, Instr, exhausted, done, pure, and_then, read, build, ◌>>=◌, ◌>>◌,
}
use rox.Gen.Assign.{Unit_, deref, fn_addr}
use rox.Gen.StmtGen.{emit_below, emit_defers, emit_all, gen_return}

-- The statements that are deferred, in the order in which they are run on the way out.
unfoldable pub all_deferred : List CgScope → List Stmt
all_deferred [] = []
all_deferred (c ∷ cs) = backwards c.defers ++ all_deferred cs

unfoldable pub run_list : (Stmt → Step (Unit {0})) → List Stmt → Step (Unit {0})
run_list run [] = pure tt
run_list run (s ∷ ss) = do run s; run_list run ss

and_then_assoc :
    {A B C : Type 0} (o : Emitted A) (f : A → Step B) (g : B → Step C)
    → and_then (and_then o f) g ≡ and_then o (λ a b. and_then (f a b) g)
and_then_assoc (done a b) f g = refl
and_then_assoc (Emitted.reported r t) f g = refl
and_then_assoc Emitted.refused f g = refl
and_then_assoc Emitted.unsound f g = refl
and_then_assoc Emitted.asserted f g = refl
and_then_assoc exhausted f g = refl

and_then_tt : (o : Emitted (Unit {0})) → and_then o (λ x. pure tt) ≡ o
and_then_tt (done tt b) = refl
and_then_tt (Emitted.reported r t) = refl
and_then_tt Emitted.refused = refl
and_then_tt Emitted.unsound = refl
and_then_tt Emitted.asserted = refl
and_then_tt exhausted = refl

bind_assoc :
    {A B C : Type 0} (m : Step A) (f : A → Step B) (g : B → Step C)
    → ((m >>= f) >>= g) ≡ (m >>= (λ a. f a >>= g))
bind_assoc m f g = fun_ext (λ b. and_then_assoc (m b) f g)

module _ (u : Unit_) (run : Stmt → Step (Unit {0})) where
  last_run : (d : Stmt) → run_list run (d ∷ []) ≡ run d
  unfolding run_list
  last_run d = fun_ext (λ b. and_then_tt (run d b))

  run_list-append :
      (xs ys : List Stmt) → run_list run (xs ++ ys) ≡ (run_list run xs >>= (λ x. run_list run ys))
  unfolding run_list
  run_list-append [] ys = refl
  run_list-append (x ∷ xs) ys =
      ap (λ (m : Step (Unit {0})). run x >>= (λ z. m)) (run_list-append xs ys)
      ∙ sym (bind_assoc (run x) (λ z. run_list run xs) (λ z. run_list run ys))

  emit_below-first :
      (d : Stmt) (ds : List Stmt) (n : ℕ)
      → emit_below u run (d ∷ ds) (suc n) ≡ (emit_below u run ds n >>= (λ x. run d))
  unfolding emit_below run_list
  emit_below-first d ds zero = last_run d
  emit_below-first d ds (suc n) =
      ap (λ (m : Step (Unit {0})). read (get_elem? ds n) >>= (λ e. run e >>= (λ z. m)))
        (emit_below-first d ds n)
      ∙ (fun_ext (λ b. go (get_elem? ds n) b))
    where
      go :
          (o : Option Stmt) (b : Building)
          → and_then (read o b) (λ e. run e >>= (λ z. emit_below u run ds n >>= (λ x. run d)))
            ≡ and_then
                (and_then (read o b) (λ e. run e >>= (λ z. emit_below u run ds n)))
                (λ x. run d)
      go none b = refl
      go (some e) b = sym (and_then_assoc (run e b) (λ z. emit_below u run ds n) (λ x. run d))

  -- From the last one down is one after another, backwards.
  emit_below-backwards :
      (ds : List Stmt) → emit_below u run ds (length ds) ≡ run_list run (backwards ds)
  unfolding emit_below backwards run_list
  emit_below-backwards [] = refl
  emit_below-backwards (d ∷ ds) =
      emit_below-first d ds (length ds)
      ∙ (ap (λ (m : Step (Unit {0})). m >>= (λ x. run d)) (emit_below-backwards ds)
          ∙ (ap (λ (m : Step (Unit {0})). run_list run (backwards ds) >>= (λ x. m))
                (sym (last_run d))
              ∙ sym (run_list-append (backwards ds) (d ∷ []))))

  emit_all-deferred : (cs : List CgScope) → emit_all u run cs ≡ run_list run (all_deferred cs)
  unfolding emit_all emit_defers all_deferred run_list
  emit_all-deferred [] = refl
  emit_all-deferred (c ∷ cs) =
      ap (λ (m : Step (Unit {0})). m >>= (λ x. emit_all u run cs)) (emit_below-backwards c.defers)
      ∙ (ap (λ (m : Step (Unit {0})). run_list run (backwards c.defers) >>= (λ x. m))
            (emit_all-deferred cs)
          ∙ sym (run_list-append (backwards c.defers) (all_deferred cs)))

-- What is known of the function under way: its type returns a type.
pub record Returns (u : Unit_) (i : ℕ) : Type 0 where
  pub addr : Value
  pub fn_type : CgType
  pub ret_type : CgType
  pub found : fn_addr u.fns i ≡ some addr
  pub is_fn : deref addr.type ≡ some fn_type
  pub gives : nth (types fn_type) 3 ≡ some ret_type

-- In a function whose type is known, a return with no value generates the deferred statements of
-- all scopes, the innermost scope first and in each scope the latest first, one after another,
-- and then the return, if none of them fails.
pub gen_return-all_deferred :
    (u : Unit_) (run : Stmt → Step (Unit {0})) (r : Range) (b : Building)
    → Returns u b.fn
    → gen_return u run r none b
      ≡ and_then (run_list run (all_deferred b.scopes) b) (λ x. build Instr.ret_void)
unfolding gen_return
gen_return-all_deferred u run r b k =
    rw (k.found, k.is_fn, k.gives)
      (ap (λ (m : Step (Unit {0})). and_then (m b) (λ x. build Instr.ret_void))
        (emit_all-deferred u run b.scopes))
