-- ===== src/Types/Same/Erased.antt =====
-- Types up to names and fields, which `CgType::operator!=` does not compare.
use rox.Prelude.{==_iff, ◌≡◌, refl, false, none}
use rox.Types.{count, CgTypes, Nested, CgType, nil, cons, cg_type, nested, unnested}
use rox.Types.Same.{
  differ_from_any, differ_from_nested, differ_from, differ_any, differ_nested, differ,
}
use rox.Types.Same.Heads.{same_head_refl}

-- A type with no names and no fields anywhere in it.
unfoldable mutual
  pub erase : CgType → CgType
  erase (cg_type k l e ts f n) = cg_type k l e (erase_nested ts) none none

  pub erase_nested : Nested → Nested
  erase_nested unnested = unnested
  erase_nested (nested ts) = nested (erase_all ts)

  pub erase_all : CgTypes → CgTypes
  erase_all nil = nil
  erase_all (cons t ts) = cons (erase t) (erase_all ts)

mutual
  unfolding differ differ_nested differ_any differ_from differ_from_nested differ_from_any

  pub same_refl : (t : CgType) → differ t t ≡ false
  same_refl (cg_type k l e ts f n) = rw (same_head_refl k l e) (nested_refl ts)

  nested_refl : (ts : Nested) → differ_nested ts ts ≡ false
  nested_refl unnested = refl
  nested_refl (nested ts) = rw ((==_iff (count ts) (count ts)).1 refl) (any_refl ts)

  any_refl : (ts : CgTypes) → differ_any ts ts ≡ false
  any_refl nil = refl
  any_refl (cons t ts) = rw (from_refl t) (any_refl ts)

  from_refl : (t : CgType) → differ_from t t ≡ false
  from_refl (cg_type k l e ts f n) = rw (same_head_refl k l e) (from_nested_refl ts)

  from_nested_refl : (ts : Nested) → differ_from_nested ts ts ≡ false
  from_nested_refl unnested = refl
  from_nested_refl (nested ts) = rw ((==_iff (count ts) (count ts)).1 refl) (from_any_refl ts)

  from_any_refl : (ts : CgTypes) → differ_from_any ts ts ≡ false
  from_any_refl nil = refl
  from_any_refl (cons t ts) = rw (same_refl t) (from_any_refl ts)

count-erase : (ts : CgTypes) → count (erase_all ts) ≡ count ts
unfolding erase_all
count-erase nil = refl
count-erase (cons t ts) = cc (count-erase ts)

mutual
  unfolding differ differ_nested differ_any differ_from differ_from_nested differ_from_any erase
      erase_nested erase_all

  differ_blind : (t u : CgType) → differ (erase t) (erase u) ≡ differ t u
  differ_blind (cg_type k l e ts f n) (cg_type k' l' e' us f' n') = rw (nested_blind ts us) refl

  nested_blind :
      (ts us : Nested) → differ_nested (erase_nested ts) (erase_nested us) ≡ differ_nested ts us
  nested_blind unnested unnested = refl
  nested_blind unnested (nested us) = refl
  nested_blind (nested ts) unnested = refl
  nested_blind (nested ts) (nested us) = rw (count-erase ts, count-erase us, any_blind ts us) refl

  any_blind : (ts us : CgTypes) → differ_any (erase_all ts) (erase_all us) ≡ differ_any ts us
  any_blind nil us = refl
  any_blind (cons t ts) nil = refl
  any_blind (cons t ts) (cons u us) = rw (from_blind t u, any_blind ts us) refl

  from_blind : (t u : CgType) → differ_from (erase t) (erase u) ≡ differ_from t u
  from_blind (cg_type k l e ts f n) (cg_type k' l' e' us f' n') = rw (from_nested_blind ts us) refl

  from_nested_blind :
      (ts us : Nested)
      → differ_from_nested (erase_nested ts) (erase_nested us) ≡ differ_from_nested ts us
  from_nested_blind unnested us = refl
  from_nested_blind (nested ts) unnested = refl
  from_nested_blind (nested ts) (nested us) =
      rw (count-erase ts, count-erase us, from_any_blind ts us) refl

  from_any_blind :
      (ts us : CgTypes) → differ_from_any (erase_all ts) (erase_all us) ≡ differ_from_any ts us
  from_any_blind nil us = refl
  from_any_blind (cons t ts) nil = refl
  from_any_blind (cons t ts) (cons u us) = rw (differ_blind t u, from_any_blind ts us) refl

pub erased_same : (t u : CgType) → erase t ≡ erase u → differ t u ≡ false
erased_same t u h = cc (differ_blind t u, h, same_refl (erase u))
