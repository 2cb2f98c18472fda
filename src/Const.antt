-- ===== src/Const.antt =====
-- ast_const.h and ast_const.cpp: typed constants. An integer is its 128-bit pattern, which
-- `m_as_uint` and `m_as_sint` both read; a float is the text that `strtod` takes.
pub mod Copies
use mathlib.Core.Option
use rox.Prelude.{ℕ, ◌+◌, ◌%◌, ◌^◌, Bool, true, false, Option, none, some, ◌≡◌, if◌then◌else◌}
use rox.Ast.{AstType, IntKind, FltKind}
use rox.Lexer.Char.{Bytes}
use rox.Lexer.Token.{Range}

pub data BoolKind : Type 0 where
  b8 b16 b32 b64 : BoolKind

mutual
  pub data Const : Type 0 where
    no_const : Range → Const
    int_const : Range → IntKind → ℕ → Const
    bool_const : Range → BoolKind → Bool → Const
    flt_const : Range → FltKind → Bytes → Const
    string_const : Range → Bytes → Const
    tuple_const : Range → Option AstType → Consts → OptFields → Const
    array_const : Range → Option AstType → Consts → Const

  pub data Consts : Type 0 where
    no_consts : Consts
    more_consts : Const → Consts → Consts

  -- `Maybe<AstConst>` and `Maybe<Array<ConstField>>`.
  pub data OptConst : Type 0 where
    no_init : OptConst
    init : Const → OptConst

  pub data OptFields : Type 0 where
    no_fields : OptFields
    fields : ConstFields → OptFields

  -- An array of `ConstField`.
  pub data ConstFields : Type 0 where
    last_field : ConstFields
    field : Option Bytes → OptConst → ConstFields → ConstFields

abbrev pub both_consts : Option Const → Option Consts → Option Consts
both_consts (some c) (some cs) = some (more_consts c cs)
both_consts _ _ = none

-- `ConstField::copy` fails where there is no name or no initial value.
abbrev pub both_fields : Option Bytes → Option OptConst → Option ConstFields → Option ConstFields
both_fields (some n) (some (init c)) (some fs) = some (field (some n) (init c) fs)
both_fields _ _ _ = none

abbrev pub both_parts : Range → Option AstType → Option Consts → Option ConstFields → Option Const
both_parts r t (some cs) (some fs) = some (tuple_const r t cs (fields fs))
both_parts r t _ _ = none

-- `AstConst::copy`, with the copies of `Array` and `Maybe`. The copy of a `Maybe` is itself a
-- `Maybe`: with nothing in it, the result cannot be told from a failure.
unfoldable mutual
  pub copy : Const → Option Const
  copy (no_const r) = some (no_const r)
  copy (int_const r k n) = some (int_const r k n)
  copy (bool_const r k b) = some (bool_const r k b)
  copy (flt_const r k x) = some (flt_const r k x)
  copy (string_const r s) = some (string_const r s)
  copy (tuple_const r t cs fs) = both_parts r t (copy_consts cs) (copy_opt_fields fs)
  copy (array_const r t cs) = Option.map (λ es. array_const r t es) (copy_consts cs)

  pub copy_consts : Consts → Option Consts
  copy_consts no_consts = some no_consts
  copy_consts (more_consts c cs) = both_consts (copy c) (copy_consts cs)

  pub copy_opt : OptConst → Option OptConst
  copy_opt no_init = none
  copy_opt (init c) = Option.map init (copy c)

  pub copy_opt_fields : OptFields → Option ConstFields
  copy_opt_fields no_fields = none
  copy_opt_fields (fields fs) = copy_fields fs

  pub copy_fields : ConstFields → Option ConstFields
  copy_fields last_field = some last_field
  copy_fields (field n c fs) = both_fields n (copy_opt c) (copy_fields fs)

-- `is_uint`, `is_sint` and `is_bool` by kind: an untyped integer is both.
abbrev pub uint_kind : IntKind → Bool
uint_kind IntKind.u8 = true
uint_kind IntKind.u16 = true
uint_kind IntKind.u32 = true
uint_kind IntKind.u64 = true
uint_kind IntKind.untyped = true
uint_kind _ = false

-- `to<T>` for an unsigned T of `w` bits. `flt` is the conversion of the float that is read: for
-- `F32` and `F64` it is the other one's field.
unfoldable pub to_uint : (FltKind → Bytes → ℕ) → ℕ → Const → Option ℕ
to_uint flt w (int_const r k n) = some (n % 2 ^ w)
to_uint flt w (bool_const r k b) = some (if b then 1 else 0)
to_uint flt w (flt_const r k x) = some (flt k x % 2 ^ w)
to_uint flt w _ = none
