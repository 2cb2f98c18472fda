-- ===== src/Types/Virtual.antt =====
-- `CgType::at_virt` on a tuple that cg_type.cpp's `make` packs.
use rox.Types.{types, Bytes, nth, is_padding, CgType, at_virt, CgTypes, nil, cons}
use rox.Prelude.{ℕ, zero, suc, ◌≡◌, refl, false, Option}
use rox.Types.Make.{make_padding, put_at, tuple_end, append, make_tuple, place, with_pad}
use rox.Const.{OptFields}

-- Over paddings, `at_virt` finds what was given.
at_virt-with_pad : (n : ℕ) (ts : CgTypes) (v : ℕ) → at_virt (with_pad n ts) v ≡ at_virt ts v
unfolding with_pad at_virt make_padding
at_virt-with_pad zero ts v = refl
at_virt-with_pad (suc n) ts v = refl

at_virt-append_pad :
    (ts : CgTypes) (n v : ℕ) → at_virt (append ts (with_pad n nil)) v ≡ at_virt ts v
unfolding append at_virt
at_virt-append_pad nil n v = at_virt-with_pad n nil v
at_virt-append_pad (cons t ts) n zero = rw (at_virt-append_pad ts n 0) refl
at_virt-append_pad (cons t ts) n (suc v) =
    rw (at_virt-append_pad ts n v, at_virt-append_pad ts n (suc v)) refl

pub data NoPadding : CgTypes → Type 0 where
  no_padding_nil : NoPadding nil
  no_padding :
      (t : CgType) {ts : CgTypes} → is_padding t ≡ false → NoPadding ts → NoPadding (cons t ts)

at_virt-place :
    (ts : CgTypes) (o al : ℕ) (fs : OptFields) (v : ℕ)
    → NoPadding ts
    → at_virt (place o al ts fs).padded v ≡ nth ts v
unfolding place put_at at_virt
at_virt-place nil o al fs v no_padding_nil = refl
at_virt-place (cons t ts) o al fs zero (no_padding _ h hs) = rw (at_virt-with_pad) (rw h refl)
at_virt-place (cons t ts) o al fs (suc v) (no_padding _ h hs) =
    rw (at_virt-with_pad) (rw h (at_virt-place ts _ _ _ v hs))

-- Where none of the types is padding, the virtual index of a field of a tuple, which leaves
-- padding out, is the index of its type in what the tuple was made of, in range and out of
-- range.
pub at_virt-make_tuple :
    (ts : CgTypes) (fs : OptFields) (name : Option Bytes) (v : ℕ)
    → NoPadding ts
    → at_virt (types (make_tuple ts fs name)) v ≡ nth ts v
unfolding make_tuple tuple_end
at_virt-make_tuple ts fs name v h = rw (at_virt-append_pad) (at_virt-place ts 0 0 fs v h)
