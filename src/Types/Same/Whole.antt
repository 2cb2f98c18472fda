-- ===== src/Types/Same/Whole.antt =====
-- Types that hold a type in each place for one, and when `CgType::operator!=` takes them to be the same.
use rox.Prelude.{
  ==_iff, ◌≡◌, refl, arith, Bool, true, false, if◌then◌else◌, ◌==◌, leb, ◌&&◌, not, ◌↔◌,
}
use rox.Types.{count, CgTypes, Nested, CgType, TypeKind, nil, cons, cg_type, nested, unnested}
use rox.Types.Same.{
  same_head, differ_from_any, differ_from_nested, differ_from, differ_any, differ_nested,
  kind_number, differ,
}
use rox.Types.Same.Heads.{same_head-Heads}
use rox.Types.Same.Erased.{erase_all, erase_nested, erased_same, erase}

-- The kinds whose types are made of others.
abbrev pub composite : TypeKind → Bool
composite k = leb 14 (kind_number k) && not (kind_number k == 24)

-- Each type of a composite kind has an array of types, which may be empty, and no other has, as
-- cg_type.cpp makes them.
unfoldable mutual
  pub whole : CgType → Bool
  whole (cg_type k l e ts f n) = whole_nested (composite k) ts

  pub whole_nested : Bool → Nested → Bool
  whole_nested c unnested = not c
  whole_nested c (nested ts) = c && whole_all ts

  pub whole_all : CgTypes → Bool
  whole_all nil = true
  whole_all (cons t ts) = whole t && whole_all ts

pub both : (a b : Bool) → a && b ≡ true → (a ≡ true) × (b ≡ true)
both true b h = (refl, h)
both false b h = absurd (cc h)

neither : (a b : Bool) → (if a then true else b) ≡ false → (a ≡ false) × (b ≡ false)
neither true b h = absurd (cc h)
neither false b h = (refl, h)

-- A test in front that fails gives a difference.
guarded : (a b : Bool) → (if a then b else true) ≡ false → (a ≡ true) × (b ≡ false)
guarded true b h = (refl, h)
guarded false b h = absurd (cc h)

mutual
  unfolding differ differ_nested differ_any differ_from differ_from_nested differ_from_any erase
      erase_nested erase_all whole whole_nested whole_all

  same_erased :
      (t u : CgType) → whole t ≡ true → whole u ≡ true → differ t u ≡ false → erase t ≡ erase u
  same_erased (cg_type k l e ts f n) (cg_type k' l' e' us f' n') v w h =
      let (a, b) = guarded (same_head k' l' e' k l e) _ h in
      let (p, q, r) = same_head-Heads k' k l' l e' e a in
      let d = nested_erased (composite k) ts us v (cc (w, p)) b in cc (p, q, r, d)

  nested_erased :
      (c : Bool) (ts us : Nested)
      → whole_nested c ts ≡ true
      → whole_nested c us ≡ true
      → differ_nested ts us ≡ false
      → erase_nested ts ≡ erase_nested us
  nested_erased c unnested unnested v w h = refl
  nested_erased true unnested (nested us) v w h = absurd (cc v)
  nested_erased false unnested (nested us) v w h = absurd (cc w)
  nested_erased true (nested ts) unnested v w h = absurd (cc w)
  nested_erased false (nested ts) unnested v w h = absurd (cc v)
  nested_erased c (nested ts) (nested us) v w h =
      let (a, b) = guarded (count us == count ts) _ h in
      let (x, y) = both c (whole_all ts) v in
      let (x', z) = both c (whole_all us) w in
      let d = any_erased ts us y z (omega (arith, (==_iff (count us) (count ts)).0 a)) b in cc d

  any_erased :
      (ts us : CgTypes)
      → whole_all ts ≡ true
      → whole_all us ≡ true
      → count ts ≡ count us
      → differ_any ts us ≡ false
      → erase_all ts ≡ erase_all us
  any_erased nil nil v w c h = refl
  any_erased nil (cons u us) v w c h = absurd (omega arith)
  any_erased (cons t ts) nil v w c h = absurd (omega arith)
  any_erased (cons t ts) (cons u us) v w c h =
      let (a, b) = both (whole t) (whole_all ts) v in
      let (a', b') = both (whole u) (whole_all us) w in
      let (p, q) = neither (differ_from t u) _ h in
      let d = from_erased t u a a' p in let r = any_erased ts us b b' (omega arith) q in cc (d, r)

  from_erased :
      (t u : CgType) → whole t ≡ true → whole u ≡ true → differ_from t u ≡ false → erase t ≡ erase u
  from_erased (cg_type k l e ts f n) (cg_type k' l' e' us f' n') v w h =
      let (a, b) = guarded (same_head k l e k' l' e') _ h in
      let (p, q, r) = same_head-Heads k k' l l' e e' a in
      let d = from_nested_erased (composite k) ts us v (cc (w, p)) b in cc (p, q, r, d)

  from_nested_erased :
      (c : Bool) (ts us : Nested)
      → whole_nested c ts ≡ true
      → whole_nested c us ≡ true
      → differ_from_nested ts us ≡ false
      → erase_nested ts ≡ erase_nested us
  from_nested_erased c unnested unnested v w h = refl
  from_nested_erased true unnested (nested us) v w h = absurd (cc v)
  from_nested_erased false unnested (nested us) v w h = absurd (cc w)
  from_nested_erased c (nested ts) unnested v w h = absurd (cc h)
  from_nested_erased c (nested ts) (nested us) v w h =
      let (a, b) = guarded (count ts == count us) _ h in
      let (x, y) = both c (whole_all ts) v in
      let (x', z) = both c (whole_all us) w in
      let d = from_any_erased ts us y z ((==_iff (count ts) (count us)).0 a) b in cc d

  from_any_erased :
      (ts us : CgTypes)
      → whole_all ts ≡ true
      → whole_all us ≡ true
      → count ts ≡ count us
      → differ_from_any ts us ≡ false
      → erase_all ts ≡ erase_all us
  from_any_erased nil nil v w c h = refl
  from_any_erased nil (cons u us) v w c h = absurd (omega arith)
  from_any_erased (cons t ts) nil v w c h = absurd (omega arith)
  from_any_erased (cons t ts) (cons u us) v w c h =
      let (a, b) = both (whole t) (whole_all ts) v in
      let (a', b') = both (whole u) (whole_all us) w in
      let (p, q) = neither (differ t u) _ h in
      let d = same_erased t u a a' p in
      let r = from_any_erased ts us b b' (omega arith) q in cc (d, r)

-- For two types in which exactly the composite kinds, pointers included, have nested types, all
-- the way down, `operator!=` is false exactly when the types are equal once names and fields are
-- taken out everywhere.
pub differ-erase :
    (t u : CgType) → whole t ≡ true → whole u ≡ true → (differ t u ≡ false) ↔ (erase t ≡ erase u)
differ-erase t u v w = (same_erased t u v w, erased_same t u)
