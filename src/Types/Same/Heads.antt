-- ===== src/Types/Same/Heads.antt =====
-- What `operator!=` compares in front of the nested types.
use rox.Prelude.{==_iff, get_or, ℕ, ◌≡◌, refl, arith, true, List, [], ◌∷◌}
use rox.Types.{Layout, TypeKind}
use rox.Types.Same.{same_head, kind_number}

abbrev kinds : List TypeKind
kinds =
    TypeKind.u8 ∷ TypeKind.u16 ∷ TypeKind.u32 ∷ TypeKind.u64 ∷ TypeKind.s8 ∷ TypeKind.s16
    ∷ TypeKind.s32 ∷ TypeKind.s64 ∷ TypeKind.b8 ∷ TypeKind.b16 ∷ TypeKind.b32 ∷ TypeKind.b64
    ∷ TypeKind.f32 ∷ TypeKind.f64 ∷ TypeKind.string ∷ TypeKind.pointer ∷ TypeKind.atomic
    ∷ TypeKind.slice ∷ TypeKind.array ∷ TypeKind.padding ∷ TypeKind.tuple ∷ TypeKind.union
    ∷ TypeKind.enum ∷ TypeKind.fn ∷ TypeKind.va ∷ []

kind_at : (k : TypeKind) → get_or kinds (kind_number k) TypeKind.u8 ≡ k
kind_at TypeKind.u8 = refl
kind_at TypeKind.u16 = refl
kind_at TypeKind.u32 = refl
kind_at TypeKind.u64 = refl
kind_at TypeKind.s8 = refl
kind_at TypeKind.s16 = refl
kind_at TypeKind.s32 = refl
kind_at TypeKind.s64 = refl
kind_at TypeKind.b8 = refl
kind_at TypeKind.b16 = refl
kind_at TypeKind.b32 = refl
kind_at TypeKind.b64 = refl
kind_at TypeKind.f32 = refl
kind_at TypeKind.f64 = refl
kind_at TypeKind.string = refl
kind_at TypeKind.pointer = refl
kind_at TypeKind.atomic = refl
kind_at TypeKind.slice = refl
kind_at TypeKind.array = refl
kind_at TypeKind.padding = refl
kind_at TypeKind.tuple = refl
kind_at TypeKind.union = refl
kind_at TypeKind.enum = refl
kind_at TypeKind.fn = refl
kind_at TypeKind.va = refl

kind_number-injective : (k k' : TypeKind) → kind_number k ≡ kind_number k' → k ≡ k'
kind_number-injective k k' h = cc (kind_at k, kind_at k', h)

pub same_head_refl : (k : TypeKind) (l : Layout) (e : ℕ) → same_head k l e k l e ≡ true
same_head_refl k l e =
    rw ((==_iff (kind_number k) (kind_number k)).1 refl, (==_iff l.size l.size).1 refl)
      (rw ((==_iff l.align l.align).1 refl, (==_iff e e).1 refl) refl)

abbrev pub Heads : TypeKind → Layout → ℕ → TypeKind → Layout → ℕ → Type 0
Heads k l e k' l' e' = (k ≡ k') × (l ≡ l') × (e ≡ e')

pub same_head-Heads :
    (k k' : TypeKind) (l l' : Layout) (e e' : ℕ)
    → same_head k l e k' l' e' ≡ true
    → Heads k l e k' l' e'
same_head-Heads k k' l l' e e' h =
    let n : kind_number k ≡ kind_number k' = ground (arith, h) in
    let s : l.size ≡ l'.size = ground (arith, h) in
    let a : l.align ≡ l'.align = ground (arith, h) in
    (kind_number-injective k k' n, λ i. record { size = s i; align = a i }, ground (arith, h))
