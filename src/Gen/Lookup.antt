-- ===== src/Gen/Lookup.antt =====
-- Names in scopes: the innermost and latest entry hides the others.
use rox.Prelude.{equal, ◌∙◌}
use rox.Prelude.{
  length, get_elem?, Bool-cases, zero, suc, ◌≡◌, refl, inl, inr, if◌then◌else◌, Option, none, some,
  List, [], ◌∷◌, ◌++◌, ℕ, ap, sym,
}
use rox.Lexer.Char.{Bytes}
use rox.Gen.Scopes.{
  Var, CgScope, find_below, find_last, or_else, scope_let, scope_using, lookup_let, lookup_using,
  lookup_first,
}

unfoldable pub backwards : {A : Type 0} → List A → List A
backwards [] = []
backwards (v ∷ vs) = backwards vs ++ (v ∷ [])

-- The entries of scopes in the order in which they hide one another: the innermost scope first, its
-- tests in front of its variables, and the latest of these first.
unfoldable pub visible : List CgScope → List Var
visible [] = []
visible (c ∷ cs) = (backwards c.tests ++ backwards c.vars) ++ visible cs

unfoldable pub visible_usings : List CgScope → List Var
visible_usings [] = []
visible_usings (c ∷ cs) = backwards c.usings ++ visible_usings cs

or_else-none : {A : Type 0} (o : Option A) → or_else o none ≡ o
or_else-none none = refl
or_else-none (some a) = refl

or_else_assoc : {A : Type 0} (o p q : Option A) → or_else (or_else o p) q ≡ or_else o (or_else p q)
or_else_assoc none p q = refl
or_else_assoc (some a) p q = refl

abbrev named : Var → Bytes → Option Var
named v x = if equal v.name x then some v else none

lookup_first-append :
    (vs ws : List Var) (x : Bytes)
    → lookup_first (vs ++ ws) x ≡ or_else (lookup_first vs x) (lookup_first ws x)
unfolding lookup_first
lookup_first-append [] ws x = refl
lookup_first-append (v ∷ vs) ws x = elim (Bool-cases (equal v.name x)) [
  | inl e ↦ rw e refl
  | inr e ↦ rw e (lookup_first-append vs ws x)
]

-- One more turn of a search, and then what it found.
turn : Option Var → Bytes → Option Var → Option Var
turn o x rest = elim o [ none ↦ rest | some v ↦ if equal v.name x then some v else rest ]

turn-or_else :
    (o : Option Var) (x : Bytes) (p q : Option Var)
    → turn o x (or_else p q) ≡ or_else (turn o x p) q
unfolding turn
turn-or_else none x p q = refl
turn-or_else (some v) x p q = elim (Bool-cases (equal v.name x)) [
  | inl e ↦ rw e refl
  | inr e ↦ rw e refl
]

find_below-first :
    (v : Var) (vs : List Var) (x : Bytes) (n : ℕ)
    → find_below (v ∷ vs) x (suc n) ≡ or_else (find_below vs x n) (named v x)
unfolding find_below turn
find_below-first v vs x zero = refl
find_below-first v vs x (suc n) =
    ap (turn (get_elem? vs n) x) (find_below-first v vs x n)
    ∙ turn-or_else (get_elem? vs n) x (find_below vs x n) (named v x)

-- From the end is first among them backwards.
find_last-backwards : (vs : List Var) (x : Bytes) → find_last vs x ≡ lookup_first (backwards vs) x
unfolding find_last find_below backwards lookup_first
find_last-backwards [] x = refl
find_last-backwards (v ∷ vs) x =
    find_below-first v vs x (length vs)
    ∙ (ap (λ o. or_else o (named v x)) (find_last-backwards vs x)
        ∙ sym (lookup_first-append (backwards vs) (v ∷ []) x))

-- What `Cg::lookup_let` finds for a name is the first entry of that name among the entries of
-- all scopes, the innermost scope first, in each scope its tests in front of its variables, and
-- of these the latest first.
pub lookup_let-visible :
    (cs : List CgScope) (x : Bytes) → lookup_let cs x ≡ lookup_first (visible cs) x
unfolding lookup_let scope_let visible lookup_first
lookup_let-visible [] x = refl
lookup_let-visible (c ∷ cs) x =
    rw
      (
        find_last-backwards c.tests x,
        find_last-backwards c.vars x,
        lookup_let-visible cs x,
        lookup_first-append (backwards c.tests ++ backwards c.vars) (visible cs) x,
        lookup_first-append (backwards c.tests) (backwards c.vars) x,
      )
      refl

lookup_using-visible :
    (cs : List CgScope) (x : Bytes) → lookup_using cs x ≡ lookup_first (visible_usings cs) x
unfolding lookup_using scope_using visible_usings lookup_first
lookup_using-visible [] x = refl
lookup_using-visible (c ∷ cs) x =
    rw
      (
        find_last-backwards c.usings x,
        lookup_using-visible cs x,
        lookup_first-append (backwards c.usings) (visible_usings cs) x,
      )
      refl
