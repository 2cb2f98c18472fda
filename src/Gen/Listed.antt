-- ===== src/Gen/Listed.antt =====
-- A type definition or an effect that is listed keeps everything solved.
use rox.Prelude.{◌∙◌}
use rox.Gen.Made.{builtins-Made, Denotes-Made}
use rox.Gen.Denotes.{Denotes, Denotes-widen}
use rox.Units.{AstTypedef, AstEffect}
use rox.Gen.Resolve.{list_typedef, list_effect}
use rox.Types.{CgType}
use rox.Lexer.Char.{Bytes}
use rox.Prelude.{
  get_elem?, ==_iff, Bool-cases, ◌≡◌, ◌⊎◌, inl, inr, true, none, some, List, [], ◌∷◌, ◌==◌, ℕ, ap,
  sym,
}
use rox.Gen.{Declared, Surroundings, has_number}
use rox.Gen.Extends.{
  Extends, Has-append, Has-last, find_type-append, find_type-last, has_number_more,
}
use rox.Gen.Leaves.{Named, IsSolved, Named-Extends, TypedefSolved, EffectSolved}
use rox.Types.Same.Made.{Made}
use mathlib.Core.Path.{subst}
use mathlib.Core.Option

pub Extends-list_typedef :
    (i : ℕ) (x : Bytes) (u : CgType) (s : Declared) → Extends s (list_typedef i x u s)
Extends-list_typedef i x u s = record {
  found_typedef = λ y v h. find_type-append s.typedefs ((x, u) ∷ []) y v h;
  found_effect = λ y v h. h;
  has_typedef = λ e h. Has-append s.typedefs ((x, u) ∷ []) h;
  has_effect = λ e h. h;
  typedef_made = λ j h. has_number_more j i s.made_typedefs h;
  effect_made = λ j h. h;
}

pub Extends-list_effect :
    (i : ℕ) (x : Bytes) (u : CgType) (s : Declared) → Extends s (list_effect i x u s)
Extends-list_effect i x u s = record {
  found_typedef = λ y v h. h;
  found_effect = λ y v h. find_type-append s.effects ((x, u) ∷ []) y v h;
  has_typedef = λ e h. h;
  has_effect = λ e h. Has-append s.effects ((x, u) ∷ []) h;
  typedef_made = λ j h. h;
  effect_made = λ j h. has_number_more j i s.made_effects h;
}

-- A number in front of others is that one or among the others.
numbered :
    (i j : ℕ) (js : List ℕ) → has_number (i ∷ js) j ≡ true → (i ≡ j) ⊎ (has_number js j ≡ true)
unfolding has_number
numbered i j js h = elim (Bool-cases (i == j)) [
  | inl e ↦ inl ((==_iff i j).0 e)
  | inr e ↦ inr (rw e at h)
]

same_node :
    {A : Type 0} (xs : List A) (i j : ℕ) (a b : A)
    → i ≡ j
    → get_elem? xs i ≡ some a
    → get_elem? xs j ≡ some b
    → a ≡ b
same_node xs i j a b e p q = Option.some-injective _ _ (sym p ∙ (ap (get_elem? xs) e ∙ q))

pub Named-Made :
    {env : Surroundings} {s : Declared}
    → IsSolved env s
    → (x : Bytes) (u : CgType) → Named s x u
    → Made u
Named-Made k x u (inl h) = builtins-Made x u h
Named-Made k x u (inr (inl h)) = k.typedefs_made x u h
Named-Made k x u (inr (inr h)) = k.effects_made x u h

module _ (env : Surroundings) where
  still_typedef :
      {s s' : Declared} (d : AstTypedef)
      → Extends s s'
      → TypedefSolved env s d
      → TypedefSolved env s' d
  still_typedef d e (u, h, p) =
      (u, e.has_typedef _ h, Denotes-widen env (Named-Extends e) d.type (some d.name) u p)

  still_effect :
      {s s' : Declared} (d : AstEffect)
      → Extends s s'
      → EffectSolved env s d
      → EffectSolved env s' d
  still_effect d e (u, h, p) =
      (u, e.has_effect _ h, Denotes-widen env (Named-Extends e) d.type none u p)

  pub IsSolved-list_typedef :
      (i : ℕ) (d : AstTypedef) (u : CgType) (s : Declared)
      → get_elem? env.unit_typedefs i ≡ some d
      → IsSolved env s
      → Denotes (Named s) env d.type (some d.name) u
      → IsSolved env (list_typedef i d.name u s)
  IsSolved-list_typedef i d u s g k p =
      let ext = Extends-list_typedef i d.name u s in
      let made_u = Denotes-Made env (Named-Made k) d.type (some d.name) u p in
      record {
        typedefs_solved = λ j c h l. elim (numbered i j s.made_typedefs l) [
          | inl e ↦
              subst (TypedefSolved env (list_typedef i d.name u s))
                (same_node env.unit_typedefs i j d c e g h)
                (
                  u,
                  Has-last (d.name, u) s.typedefs,
                  Denotes-widen env (Named-Extends ext) d.type (some d.name) u p,
                )
          | inr m ↦ still_typedef c ext (k.typedefs_solved j c h m)
        ];
        effects_solved = λ j c h l. still_effect c ext (k.effects_solved j c h l);
        typedefs_made = λ x v h. elim (find_type-last s.typedefs d.name x u v h) [
          | inl m ↦ k.typedefs_made x v m
          | inr e ↦ subst Made e made_u
        ];
        effects_made = k.effects_made;
      }

  pub IsSolved-list_effect :
      (i : ℕ) (d : AstEffect) (u : CgType) (s : Declared)
      → get_elem? env.unit_effects i ≡ some d
      → IsSolved env s
      → Denotes (Named s) env d.type none u
      → IsSolved env (list_effect i d.name u s)
  IsSolved-list_effect i d u s g k p =
      let ext = Extends-list_effect i d.name u s in
      let made_u = Denotes-Made env (Named-Made k) d.type none u p in
      record {
        typedefs_solved = λ j c h l. still_typedef c ext (k.typedefs_solved j c h l);
        effects_solved = λ j c h l. elim (numbered i j s.made_effects l) [
          | inl e ↦
              subst (EffectSolved env (list_effect i d.name u s))
                (same_node env.unit_effects i j d c e g h)
                (
                  u,
                  Has-last (d.name, u) s.effects,
                  Denotes-widen env (Named-Extends ext) d.type none u p,
                )
          | inr m ↦ still_effect c ext (k.effects_solved j c h m)
        ];
        typedefs_made = k.typedefs_made;
        effects_made = λ x v h. elim (find_type-last s.effects d.name x u v h) [
          | inl m ↦ k.effects_made x v m
          | inr e ↦ subst Made e made_u
        ];
      }
