-- ===== src/Const/Copies.antt =====
-- What `AstConst::copy` copies.
use mathlib.Core.Option
use rox.Prelude.{Bool, true, false, ◌&&◌, Option, none, some, ◌≡◌, refl, if◌then◌else◌}
use rox.Lexer.Char.{Bytes}
use rox.Lexer.Token.{Range}
use rox.Ast.{AstType}
use rox.Const.{
  both_parts, both_consts, both_fields, Const, Consts, OptConst, OptFields, ConstFields, no_const,
  int_const, bool_const, flt_const, string_const, tuple_const, array_const, no_consts, more_consts,
  no_init, init, no_fields, fields, last_field, field, copy, copy_consts, copy_opt, copy_opt_fields,
  copy_fields,
}

abbrev is_named {ℓ} : {A : Type ℓ} → Option A → Bool
is_named none = false
is_named (some _) = true

-- Every tuple in the constant has fields, each with a name and an initial value.
unfoldable mutual
  pub complete : Const → Bool
  complete (tuple_const r t cs fs) = complete_consts cs && complete_opt_fields fs
  complete (array_const r t cs) = complete_consts cs
  complete _ = true

  pub complete_consts : Consts → Bool
  complete_consts no_consts = true
  complete_consts (more_consts c cs) = complete c && complete_consts cs

  pub complete_opt : OptConst → Bool
  complete_opt no_init = false
  complete_opt (init c) = complete c

  pub complete_opt_fields : OptFields → Bool
  complete_opt_fields no_fields = false
  complete_opt_fields (fields fs) = complete_fields fs

  pub complete_fields : ConstFields → Bool
  complete_fields last_field = true
  complete_fields (field n c fs) = is_named n && complete_opt c && complete_fields fs

abbrev when {ℓ} : {A : Type ℓ} → Bool → A → Option A
when b a = if b then some a else none

parts_when :
    (r : Range) (t : Option AstType) (a b : Bool) (cs : Consts) (fs : ConstFields)
    → both_parts r t (when a cs) (when b fs) ≡ when (a && b) (tuple_const r t cs (fields fs))
parts_when r t true true cs fs = refl
parts_when r t true false cs fs = refl
parts_when r t false b cs fs = refl

parts_none :
    (r : Range) (t : Option AstType) (a : Bool) (cs : Consts)
    → both_parts r t (when a cs) none ≡ when (a && false) (tuple_const r t cs no_fields)
parts_none r t true cs = refl
parts_none r t false cs = refl

consts_when :
    (a b : Bool) (c : Const) (cs : Consts)
    → both_consts (when a c) (when b cs) ≡ when (a && b) (more_consts c cs)
consts_when true true c cs = refl
consts_when true false c cs = refl
consts_when false b c cs = refl

fields_when :
    (n : Option Bytes) (a b : Bool) (c : OptConst) (fs : ConstFields)
    → (a ≡ true → complete_opt c ≡ true)
    → both_fields n (when a c) (when b fs) ≡ when (is_named n && a && b) (field n c fs)
unfolding complete_opt
fields_when none true true c fs h = refl
fields_when none true false c fs h = refl
fields_when none false b c fs h = refl
fields_when (some n) true true no_init fs h = cc (h refl)
fields_when (some n) true true (init c) fs h = refl
fields_when (some n) true false no_init fs h = cc (h refl)
fields_when (some n) true false (init c) fs h = refl
fields_when (some n) false b c fs h = refl

map-when : {A B : Type 0} (f : A → B) (a : Bool) (x : A) → Option.map f (when a x) ≡ when a (f x)
map-when f true x = refl
map-when f false x = refl

mutual
  unfolding copy copy_consts copy_opt copy_opt_fields copy_fields complete complete_consts
      complete_opt complete_opt_fields complete_fields

  copies : (c : Const) → copy c ≡ (if complete c then some c else none)
  copies (no_const r) = refl
  copies (int_const r k n) = refl
  copies (bool_const r k b) = refl
  copies (flt_const r k x) = refl
  copies (string_const r s) = refl
  copies (tuple_const r t cs no_fields) =
      rw (copies_consts cs) (parts_none r t (complete_consts cs) cs)
  copies (tuple_const r t cs (fields fs)) =
      rw (copies_consts cs, copies_fields fs)
        (parts_when r t (complete_consts cs) (complete_fields fs) cs fs)
  copies (array_const r t cs) = rw (copies_consts cs) (map-when _ (complete_consts cs) cs)

  copies_consts : (cs : Consts) → copy_consts cs ≡ (if complete_consts cs then some cs else none)
  copies_consts no_consts = refl
  copies_consts (more_consts c cs) =
      rw (copies c, copies_consts cs) (consts_when (complete c) (complete_consts cs) c cs)

  copies_opt : (c : OptConst) → copy_opt c ≡ (if complete_opt c then some c else none)
  copies_opt no_init = refl
  copies_opt (init c) = rw (copies c) (map-when init (complete c) c)

  copies_fields :
      (fs : ConstFields) → copy_fields fs ≡ (if complete_fields fs then some fs else none)
  copies_fields last_field = refl
  copies_fields (field n c fs) =
      rw (copies_opt c, copies_fields fs)
        (fields_when n (complete_opt c) (complete_fields fs) c fs (λ e. e))

-- A constant is copied to itself if every tuple in it has fields, each of them with a name and
-- an initial value that is copied itself, and otherwise it has no copy.
pub copy-complete : (c : Const) → copy c ≡ (if complete c then some c else none)
copy-complete c = copies c
