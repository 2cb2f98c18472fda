-- ===== src/Types/Pads.antt =====
-- cg_type.cpp: `ensure_padding`, and the cache that it fills.
use mathlib.Core.List.{map}
use rox.Prelude.{
  get_elem?-set_ne, get_elem?-set_self, ◌≢◌, ℕ, zero, suc, ◌+◌, ◌-◌, ◌<◌, ◌≡◌, refl, arith, Option,
  none, some, List, [], ◌∷◌, ◌++◌, length, get_elem?, set, take, replicate, length-append,
  length-take, length-replicate, ℕ_discrete,
}
use rox.Types.{CgType}
use rox.Types.Make.{make_padding}

-- `m_padding_cache`: a type, or null, for each size of padding that the array reaches.
abbrev pub PadCache : Type 0
PadCache = List (Option CgType)

-- `Array::resize` of pointers, which are null at first. It also shortens the array.
unfoldable pub resize : PadCache → ℕ → PadCache
resize cs n = take n cs ++ replicate (n - length cs) none

-- `at(padding)`, and whether the type is there.
abbrev pub cached : Option (Option CgType) → Option CgType
cached (some (some t)) = some t
cached _ = none

unfoldable pub ensure_padding : ℕ → PadCache → CgType × PadCache
ensure_padding n cs = elim (cached (get_elem? cs n)) [
  | none ↦ (make_padding n, set (resize cs (n + 1)) n (some (make_padding n)))
  | some t ↦ (t, cs)
]

-- What a sequence of requests is answered.
unfoldable pub answers : List ℕ → PadCache → List CgType
answers [] cs = []
answers (n ∷ ns) cs = (ensure_padding n cs).0 ∷ answers ns (ensure_padding n cs).1

-- Each type in the cache is the padding of its index.
pub IsPads : PadCache → Type 0
IsPads cs = (n : ℕ) (t : CgType) → get_elem? cs n ≡ some (some t) → t ≡ make_padding n

get_elem?-take :
    (cs : PadCache) (k n : ℕ) (t : CgType)
    → get_elem? (take k cs) n ≡ some (some t)
    → get_elem? cs n ≡ some (some t)
get_elem?-take cs zero n t h = absurd (cc h)
get_elem?-take [] (suc k) n t h = h
get_elem?-take (c ∷ cs) (suc k) zero t h = h
get_elem?-take (c ∷ cs) (suc k) (suc n) t h = get_elem?-take cs k n t h

get_elem?-replicate : (k n : ℕ) (t : CgType) → get_elem? (replicate k none) n ≢ some (some t)
get_elem?-replicate zero n t h = cc h
get_elem?-replicate (suc k) zero t h = cc h
get_elem?-replicate (suc k) (suc n) t h = get_elem?-replicate k n t h

get_elem?-append :
    (cs : PadCache) (k n : ℕ) (t : CgType)
    → get_elem? (cs ++ replicate k none) n ≡ some (some t)
    → get_elem? cs n ≡ some (some t)
get_elem?-append [] k n t h = absurd (get_elem?-replicate k n t h)
get_elem?-append (c ∷ cs) k zero t h = h
get_elem?-append (c ∷ cs) k (suc n) t h = get_elem?-append cs k n t h

resize-IsPads : (cs : PadCache) (n : ℕ) → IsPads cs → IsPads (resize cs n)
unfolding IsPads resize
resize-IsPads cs k h n t e =
    h n t (get_elem?-take cs k n t (get_elem?-append (take k cs) (k - length cs) n t e))

length-resize : (cs : PadCache) (n : ℕ) → length (resize cs n) ≡ n
unfolding resize
length-resize cs n = omega (
  arith,
  length-append {0} (take n cs) (replicate (n - length cs) none),
  length-take {0} n cs,
  length-replicate {0} {A = Option CgType} (n - length cs) none,
)

set-IsPads :
    (cs : PadCache) (n : ℕ) → n < length cs → IsPads cs → IsPads (set cs n (some (make_padding n)))
unfolding IsPads
set-IsPads cs n l h m t e = elim (ℕ_discrete n m) [
  | yes p ↦ cc (p, get_elem?-set_self cs n (some (make_padding n)) l, e)
  | no p ↦ h m t (cc (get_elem?-set_ne cs (some (make_padding n)) p, e))
]

fresh-IsPads :
    (cs : PadCache) (n : ℕ) → IsPads cs → IsPads (set (resize cs (n + 1)) n (some (make_padding n)))
fresh-IsPads cs n h =
    set-IsPads (resize cs (n + 1)) n (omega (arith, length-resize cs (n + 1)))
      (resize-IsPads cs (n + 1) h)

abbrev Ensured : ℕ → CgType × PadCache → Type 0
Ensured n r = (r.0 ≡ make_padding n) × IsPads r.1

-- If each type in the padding cache is the padding of its index, then `ensure_padding` gives the
-- padding of the size asked for, from the cache or made anew, and each type in the cache that it
-- leaves is again the padding of its index.
pub ensure_padding-IsPads :
    (n : ℕ) (cs : PadCache)
    → IsPads cs
    → ((ensure_padding n cs).0 ≡ make_padding n) × IsPads (ensure_padding n cs).1
unfolding ensure_padding IsPads
ensure_padding-IsPads n cs h = go (get_elem? cs n) refl
  where
    go :
        (o : Option (Option CgType))
        → get_elem? cs n ≡ o
        → Ensured n (elim (cached o) [
          | none ↦ (make_padding n, set (resize cs (n + 1)) n (some (make_padding n)))
          | some t ↦ (t, cs)
        ])
    go none e = (refl, fresh-IsPads cs n h)
    go (some none) e = (refl, fresh-IsPads cs n h)
    go (some (some t)) e = (h n t e, h)

-- Answers.
pub answers-IsPads : (ns : List ℕ) (cs : PadCache) → IsPads cs → answers ns cs ≡ map make_padding ns
unfolding answers
answers-IsPads [] cs h = refl
answers-IsPads (n ∷ ns) cs h =
    let (a, b) = ensure_padding-IsPads n cs h in rw (a, answers-IsPads ns _ b)

pub empty-IsPads : IsPads []
unfolding IsPads
empty-IsPads n t h = cc h
