-- ===== src/Types/Same/Made.antt =====
-- The types that cg_type.cpp makes, and when two of them are the same.
use rox.Prelude.{
  zero, suc, ◌≡◌, refl, Bool, true, false, if◌then◌else◌, Option, none, some, ◌==◌, ◌↔◌, ℕ,
}
use mathlib.Core.Path.{subst}
use mathlib.Core.Option
use rox.Lexer.Char.{Bytes}
use rox.Types.{size, align, is_va, CgTypes, Layout, CgType, nil, cons, TypeKind}
use rox.Const.{OptFields, ConstFields}
use rox.Types.Make.{
  next_fields, max_size, sum_size, align_up, pad_size, Placed, copied_fields, tuple_end, make_enum,
  make_atomic, make_va, make_fn, make_union, make_tuple, make_slice, make_string, make_ptr,
  make_bool, make_array, make_real, make_int, make_padding, put_at, append, place, with_pad, flat,
  pick,
}
use rox.Types.Same.Whole.{differ-erase, both, whole_all, whole_nested, composite, whole}
use rox.Types.Same.{differ}
use rox.Types.Same.Erased.{erase}

mutual
  -- What any sequence of calls of `CgTypeCache::make` gives.
  pub data Made : CgType → Type 0 where
    made_int :
        (l : Layout) (s : Bool) (n : Option Bytes) (t : CgType) → make_int l s n ≡ some t → Made t
    made_real : (l : Layout) (n : Option Bytes) (t : CgType) → make_real l n ≡ some t → Made t
    made_bool : (l : Layout) (n : Option Bytes) (t : CgType) → make_bool l n ≡ some t → Made t
    made_pointer : (l : Layout) (n : Option Bytes) → Made (make_ptr l none n)
    made_ptr : (l : Layout) (t : CgType) (n : Option Bytes) → Made t → Made (make_ptr l (some t) n)
    made_string : Made make_string
    made_slice : (t : CgType) → Made t → Made (make_slice t)
    made_array : (t : CgType) (k : ℕ) (n : Option Bytes) → Made t → Made (make_array t k n)
    made_padding : (k : ℕ) → Made (make_padding k)
    made_tuple :
        (ts : CgTypes) (fs : OptFields) (n : Option Bytes) → AreMade ts → Made (make_tuple ts fs n)
    made_union : (ts : CgTypes) (n : Option Bytes) → AreMade ts → Made (make_union ts n)
    made_fn : (o a e r : CgType) → Made o → Made a → Made e → Made r → Made (make_fn o a e r)
    made_va : Made make_va
    made_atomic : (t : CgType) (n : Option Bytes) → Made t → Made (make_atomic t n)
    made_enum :
        (b : CgType) (fs : ConstFields) (n : Option Bytes) (t : CgType)
        → Made b
        → make_enum b fs n ≡ some t
        → Made t

  pub data AreMade : CgTypes → Type 0 where
    made_none : AreMade nil
    made_more : (t : CgType) (ts : CgTypes) → Made t → AreMade ts → AreMade (cons t ts)

-- A type with no nested types, of a kind that has none.
flat-whole :
    (k : Option TypeKind) (l : Layout) (n : Option Bytes) (t : CgType)
    → ((j : TypeKind) → k ≡ some j → composite j ≡ false)
    → flat k l n ≡ some t
    → whole t ≡ true
unfolding whole whole_nested
flat-whole none l n t h e = absurd (cc e)
flat-whole (some k) l n t h e =
    subst (λ x. whole x ≡ true) (Option.some-injective _ _ e) (rw (h k refl) refl)

picked :
    (b : Bool) (k : TypeKind) (o : Option TypeKind)
    → composite k ≡ false
    → ((j : TypeKind) → o ≡ some j → composite j ≡ false)
    → (j : TypeKind) → (if b then some k else o) ≡ some j
    → composite j ≡ false
picked true k o h r j e = subst (λ x. composite x ≡ false) (Option.some-injective _ _ e) h
picked false k o h r j e = r j e

picked_none : (j : TypeKind) → none ≡ some j → composite j ≡ false
picked_none j e = absurd (cc e)

pick-whole :
    (s : ℕ) (a b c d : TypeKind)
    → composite a ≡ false
    → composite b ≡ false
    → composite c ≡ false
    → composite d ≡ false
    → (j : TypeKind) → pick s a b c d ≡ some j
    → composite j ≡ false
pick-whole s a b c d p q r t =
    picked (s == 8) a _ p
      (picked (s == 4) b _ q (picked (s == 2) c _ r (picked (s == 1) d none t picked_none)))

whole-with_pad : (n : ℕ) (ts : CgTypes) → whole_all ts ≡ true → whole_all (with_pad n ts) ≡ true
unfolding with_pad whole whole_nested whole_all make_padding make_array
whole-with_pad zero ts h = h
whole-with_pad (suc n) ts h = h

whole-append :
    (ts us : CgTypes) → whole_all ts ≡ true → whole_all us ≡ true → whole_all (append ts us) ≡ true
unfolding append whole_all
whole-append nil us p q = q
whole-append (cons t ts) us p q =
    let (a, b) = both (whole t) (whole_all ts) p in rw (a, whole-append ts us b q) refl

whole-put_at :
    (o s : ℕ) (t : CgType) (fs : OptFields) (p : Placed)
    → whole t ≡ true
    → whole_all p.padded ≡ true
    → whole_all (put_at o s t fs p).padded ≡ true
unfolding put_at whole_all
whole-put_at o s t fs p a b = whole-with_pad (pad_size o s) (cons t p.padded) (rw (a, b) refl)

whole-place :
    (ts : CgTypes) (o al : ℕ) (fs : OptFields)
    → whole_all ts ≡ true
    → whole_all (place o al ts fs).padded ≡ true
unfolding place whole_all
whole-place nil o al fs h = refl
whole-place (cons t ts) o al fs h =
    let (a, b) = both (whole t) (whole_all ts) h in
    let start = if is_va t then o else align_up o (align t) in
    let o' = if is_va t then o else sum_size start (size t) in
    let al' = if is_va t then al else max_size al (align t) in
    whole-put_at o start t fs (place o' al' ts (next_fields fs)) a
      (whole-place ts o' al' (next_fields fs) b)

whole-tuple_end : (p : Placed) → whole_all p.padded ≡ true → whole_all (tuple_end p).padded ≡ true
unfolding tuple_end whole_all
whole-tuple_end p h =
    let aligned = align_up p.offset p.alignment in
    whole-append p.padded (with_pad (pad_size p.offset aligned) nil) h
      (whole-with_pad (pad_size p.offset aligned) nil refl)

copied_whole :
    (o : Option ConstFields) (b t : CgType) (n : Option Bytes)
    → whole b ≡ true
    → copied_fields o b n ≡ some t
    → whole t ≡ true
unfolding whole whole_nested whole_all
copied_whole none b t n h e = absurd (cc e)
copied_whole (some fs) b t n h e =
    subst (λ x. whole x ≡ true) (Option.some-injective _ _ e) (rw h refl)

mutual
  unfolding make_int make_real make_bool make_ptr make_string make_slice make_array make_padding
      make_tuple make_union make_fn make_va make_atomic make_enum whole whole_nested whole_all

  Made-whole : (t : CgType) → Made t → whole t ≡ true
  Made-whole t (made_int l true n _ e) =
      flat-whole _ l n t
        (pick-whole l.size TypeKind.s64 TypeKind.s32 TypeKind.s16 TypeKind.s8 refl refl refl refl) e
  Made-whole t (made_int l false n _ e) =
      flat-whole _ l n t
        (pick-whole l.size TypeKind.u64 TypeKind.u32 TypeKind.u16 TypeKind.u8 refl refl refl refl) e
  Made-whole t (made_real l n _ e) =
      flat-whole _ l n t
        (picked (l.size == 8) TypeKind.f64 _ refl
          (picked (l.size == 4) TypeKind.f32 none refl picked_none))
        e
  Made-whole t (made_bool l n _ e) =
      flat-whole _ l n t
        (pick-whole l.size TypeKind.b64 TypeKind.b32 TypeKind.b16 TypeKind.b8 refl refl refl refl) e
  Made-whole _ (made_pointer l n) = refl
  Made-whole _ (made_ptr l t n m) = rw (Made-whole t m) refl
  Made-whole _ made_string = refl
  Made-whole _ (made_slice t m) = rw (Made-whole t m) refl
  Made-whole _ (made_array t k n m) = rw (Made-whole t m) refl
  Made-whole _ (made_padding k) = refl
  Made-whole _ (made_tuple ts fs n m) =
      whole-tuple_end (place 0 0 ts fs) (whole-place ts 0 0 fs (AreMade-whole ts m))
  Made-whole _ (made_union ts n m) = AreMade-whole ts m
  Made-whole _ (made_fn o a e r p q s u) =
      rw (Made-whole o p, Made-whole a q, Made-whole e s, Made-whole r u) refl
  Made-whole _ made_va = refl
  Made-whole _ (made_atomic t n m) = rw (Made-whole t m) refl
  Made-whole t (made_enum b fs n _ m e) = copied_whole _ b t n (Made-whole b m) e

  AreMade-whole : (ts : CgTypes) → AreMade ts → whole_all ts ≡ true
  AreMade-whole _ made_none = refl
  AreMade-whole _ (made_more t ts m ms) = rw (Made-whole t m, AreMade-whole ts ms) refl

-- For two types that calls of `CgTypeCache::make` made, of types that it made, `operator!=` is
-- false exactly when the types are equal once names and fields are taken out everywhere.
pub differ-Made : (t u : CgType) → Made t → Made u → (differ t u ≡ false) ↔ (erase t ≡ erase u)
differ-Made t u m n = differ-erase t u (Made-whole t m) (Made-whole u n)
