-- ===== src/Types/Shown.antt =====
-- How cg_type.cpp prints the tuples that it makes.
use native.Mathlib.Nat.{mod-eq_of_lt}
use mathlib.Core.List.{append_assoc}
use rox.Types.Places.{AreLaidOut, all_cons, laid_out}
use rox.Prelude.{◌∙◌, codes, zero, suc, ◌≡◌, refl, arith, Bool, true, false, none, [], ◌++◌, ℕ, sym}
use rox.Types.{size, align, is_padding, CgType, CgTypes, nil, cons}
use rox.Types.Print.{dump_tuple, dump, dump_members, dump_fields}
use rox.Types.Make.{
  next_fields, max_size, Placed, sum_size, align_up, pad_size, tuple_end, make_tuple, put_at, place,
  append, make_padding, with_pad,
}
use rox.Const.{OptFields}
use rox.Types.Masks.{IsAlignment}
use rox.Types.Aligns.{align_up-Rounds}

fields-with_pad : (n : ℕ) (ts : CgTypes) → dump_fields false (with_pad n ts) ≡ dump_fields false ts
unfolding with_pad dump_fields make_padding
fields-with_pad zero ts = refl
fields-with_pad (suc n) ts = refl

pad_only : (b : Bool) (n : ℕ) → dump_fields b (with_pad n nil) ≡ []
unfolding with_pad dump_fields make_padding
pad_only b zero = refl
pad_only b (suc n) = refl

fields-append_pad :
    (ts : CgTypes) (b : Bool) (n : ℕ)
    → dump_fields b (append ts (with_pad n nil)) ≡ dump_fields b ts
unfolding dump_fields append
fields-append_pad nil b n = pad_only b n
fields-append_pad (cons t ts) b n = rw (fields-append_pad ts false n)

-- A row of types that are not padding.
fields_members :
    (t : CgType) (b : Bool) (us ts : CgTypes)
    → is_padding t ≡ false
    → dump_fields false us ≡ dump_members false ts
    → dump_fields b (cons t us) ≡ dump_members b (cons t ts)
unfolding dump_fields dump_members
fields_members t b us ts h e = rw (h, e) (append_assoc _ (dump t) (dump_members false ts))

put_at-fields :
    (o s : ℕ) (t : CgType) (fs : OptFields) (p : Placed) (ts : CgTypes)
    → is_padding t ≡ false
    → dump_fields false p.padded ≡ dump_members false ts
    → dump_fields false (put_at o s t fs p).padded ≡ dump_members false (cons t ts)
unfolding put_at
put_at-fields o s t fs p ts h e =
    fields-with_pad (pad_size o s) (cons t p.padded) ∙ fields_members t false p.padded ts h e

put_first-fields :
    (t : CgType) (fs : OptFields) (p : Placed) (ts : CgTypes)
    → is_padding t ≡ false
    → dump_fields false p.padded ≡ dump_members false ts
    → dump_fields true (put_at 0 0 t fs p).padded ≡ dump_members true (cons t ts)
unfolding put_at pad_size with_pad
put_first-fields t fs p ts h e = fields_members t true p.padded ts h e

fields-place :
    (ts : CgTypes) (o al : ℕ) (fs : OptFields)
    → AreLaidOut ts
    → dump_fields false (place o al ts fs).padded ≡ dump_members false ts
unfolding place dump_fields dump_members
fields-place nil o al fs h = refl
fields-place (cons t ts) o al fs (all_cons (laid_out _ a m h v) hs) =
    let at = align_up o (align t) in
    let o' = sum_size at (size t) in
    let al' = max_size al (align t) in
    rw v (
      put_at-fields o at t fs (place o' al' ts (next_fields fs)) ts h
        (fields-place ts o' al' (next_fields fs) hs))

-- Nothing stands in front of the first field.
align_up_zero : (a : ℕ) → IsAlignment a → align_up 0 a ≡ 0
align_up_zero a h =
    let (d, l, u) = align_up-Rounds 0 a h (omega arith) in sym (mod-eq_of_lt (omega arith)) ∙ d

nil_fields : dump_fields true nil ≡ dump_members true nil
unfolding dump_fields dump_members
nil_fields = refl

tuple_fields :
    (ts : CgTypes) (fs : OptFields)
    → AreLaidOut ts
    → dump_fields true (place 0 0 ts fs).padded ≡ dump_members true ts
unfolding place
tuple_fields nil fs h = nil_fields
tuple_fields (cons t ts) fs (all_cons (laid_out _ a m h v) hs) =
    let o' = sum_size 0 (size t) in
    let al' = max_size 0 (align t) in
    rw (v, align_up_zero (align t) a)
      (put_first-fields t fs (place o' al' ts (next_fields fs)) ts h
        (fields-place ts o' al' (next_fields fs) hs))

-- A tuple with no name, of types that are laid out (not padding nor variadic, with an alignment
-- of 1, 2, 4 or 8 that divides the size), is printed as the types that it was made of between
-- parentheses, with commas between them and without its padding.
pub dump-make_tuple :
    (ts : CgTypes) (fs : OptFields)
    → AreLaidOut ts
    → dump (make_tuple ts fs none) ≡ codes "(" ++ (dump_members true ts ++ codes ")")
unfolding make_tuple tuple_end dump dump_tuple
dump-make_tuple ts fs h =
    rw (fields-append_pad (place 0 0 ts fs).padded true _, tuple_fields ts fs h)
