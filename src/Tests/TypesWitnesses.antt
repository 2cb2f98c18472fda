-- ===== src/Tests/TypesWitnesses.antt =====
-- The theorems on types and constants at concrete inputs.
use rox.Ast.{Expr, BinOp, FltKind, bin_expr, int_expr, expr_range, IntKind}
use rox.Eval.Folds.{eval-Means, means_add, means_literal}
use rox.Types.Same.Made.{made_slice, made_int, differ-Made}
use rox.Prelude.{
  ◌^◌, ◌%◌, ◌+◌, codes, ◌≡◌, refl, arith, true, false, if◌then◌else◌, none, some, [], ◌++◌, ◌↔◌,
}
use rox.Types.{nth, types, CgTypes, at_virt, nil, cons}
use rox.Types.Masks.{by_1, by_8}
use rox.Types.Places.{make_tuple-IsPacked, IsPacked, AreLaidOut, room, laid_out, all_nil, all_cons}
use rox.Types.Virtual.{at_virt-make_tuple, NoPadding, no_padding, no_padding_nil}
use rox.Const.{Const, more_consts, no_consts, copy, no_fields, int_const, tuple_const}
use rox.Types.Print.{dump_members, dump}
use rox.Types.Pads.{empty-IsPads, ensure_padding-IsPads, IsPads, ensure_padding}
use rox.Types.Make.{box, make_int, u64_type, u8_type, make_padding, make_slice, make_tuple}
use rox.Types.Same.{differ}
use rox.Types.Same.Erased.{erase}
use rox.Types.Shown.{dump-make_tuple}
use rox.Const.Copies.{copy-complete, complete}
use rox.Lexer.Token.{Range}
use rox.Eval.{Known, eval}
use rox.Lexer.Char.{Bytes}

-- `Uint8` and `Uint64`.
abbrev byte_and_word : CgTypes
byte_and_word = cons u8_type (cons u64_type nil)

byte_and_word-AreLaidOut : AreLaidOut byte_and_word
byte_and_word-AreLaidOut =
    all_cons (laid_out u8_type by_1 refl refl refl)
      (all_cons (laid_out u64_type by_8 refl refl refl) all_nil)

byte_and_word-NoPadding : NoPadding byte_and_word
byte_and_word-NoPadding = no_padding u8_type refl (no_padding u64_type refl no_padding_nil)

make_tuple-IsPacked_example : IsPacked byte_and_word (make_tuple byte_and_word no_fields none)
unfolding room
make_tuple-IsPacked_example =
    make_tuple-IsPacked u8_type (cons u64_type nil) no_fields none byte_and_word-AreLaidOut
      (omega arith)

at_virt-make_tuple_example :
    at_virt (types (make_tuple byte_and_word no_fields none)) 1 ≡ nth byte_and_word 1
at_virt-make_tuple_example =
    at_virt-make_tuple byte_and_word no_fields none 1 byte_and_word-NoPadding

dump-make_tuple_example :
    dump (make_tuple byte_and_word no_fields none)
    ≡ codes "(" ++ (dump_members true byte_and_word ++ codes ")")
dump-make_tuple_example = dump-make_tuple byte_and_word no_fields byte_and_word-AreLaidOut

differ-Made_example :
    (differ (make_slice u8_type) (make_slice u64_type) ≡ false)
    ↔ (erase (make_slice u8_type) ≡ erase (make_slice u64_type))
unfolding make_int
differ-Made_example =
    differ-Made (make_slice u8_type) (make_slice u64_type)
      (made_slice u8_type (made_int (box 1 1) false none u8_type refl))
      (made_slice u64_type (made_int (box 8 8) false none u64_type refl))

ensure_padding-IsPads_example :
    ((ensure_padding 7 []).0 ≡ make_padding 7) × IsPads (ensure_padding 7 []).1
ensure_padding-IsPads_example = ensure_padding-IsPads 7 [] empty-IsPads

-- A tuple of a byte, with no fields.
abbrev byte_tuple : Const
byte_tuple =
    let r : Range = record { offset = 0; length = 3 } in
    tuple_const r none (more_consts (int_const r IntKind.u8 3) no_consts) no_fields

copy-complete_example : copy byte_tuple ≡ (if complete byte_tuple then some byte_tuple else none)
copy-complete_example = copy-complete byte_tuple

abbrev at_start : Range
at_start = record { offset = 0; length = 6 }

-- `200_u8 + 100_u8`, and what it is folded to.
abbrev too_large : Expr
too_large =
    bin_expr at_start BinOp.add (int_expr at_start IntKind.u8 200)
      (int_expr at_start IntKind.u8 100)

abbrev no_globals : Known
no_globals = record {
  globals = [];
  property = λ (e : Expr) (n : Bytes). none;
  of_float = λ (k : FltKind) (x : Bytes). 0;
}

eval-Means_example :
    eval no_globals too_large
    ≡ some (int_const (expr_range too_large) IntKind.u8 ((200 + 100) % 2 ^ 128))
eval-Means_example = eval-Means no_globals IntKind.u8 too_large (200 + 100) (
    means_add at_start (int_expr at_start IntKind.u8 200) (int_expr at_start IntKind.u8 100) 200 100
      (means_literal at_start 200 refl (omega arith) tt)
      (means_literal at_start 100 refl (omega arith) tt) tt)
