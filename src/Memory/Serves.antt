-- ===== src/Memory/Serves.antt =====
-- What the cache of util/pool.cpp gives.
use rox.Memory.Cache.{dropped}
use rox.Memory.Cache.{object_bytes}
use rox.Prelude.{◌/◌}
use rox.Memory.Interface.{Refused}
use rox.Arrays.Grows.{Appends, IsArray, appends, appends_some, push_back-Appends}
use mathlib.Core.Path.{subst}
use rox.Prelude.{
  length, suc, ◌+◌, ◌*◌, ◌^◌, ◌<◌, ◌≡◌, refl, arith, Option, none, some, List, [], ◌∷◌, ◌++◌, ℕ,
}
use rox.Memory.Interface.{Allocator}
use rox.Memory.Pool.{round_words, make, Pool}
use rox.Memory.Fresh.{make-IsFresh, IsFresh, is_fresh}
use rox.Memory.Allocates.{Allocates, gives_none, allocate-Allocates}
use rox.Memory.Cache.{
  added, pool_bytes, make_pool, or_more, with_objects, with_pool, with_words, Reply, here_or, Cache,
  allocate_in, allocate,
}
use rox.Arrays.{Array}
use rox.Arrays
use rox.Memory.Slots.{IsPool}

-- A slot of the first pool that has a free one; or every pool is full.
pub data InPools : List Pool → Option (ℕ × List Pool) → Type 0 where
  in_first :
      (p q : Pool) (ps : List Pool) (a : ℕ)
      → Allocates p (some (a, q))
      → InPools (p ∷ ps) (some (a, q ∷ ps))
  in_later :
      (p : Pool) (ps qs : List Pool) (a : ℕ)
      → Allocates p none
      → InPools ps (some (a, qs))
      → InPools (p ∷ ps) (some (a, p ∷ qs))
  in_none : InPools [] none
  in_full : (p : Pool) (ps : List Pool) → Allocates p none → InPools ps none → InPools (p ∷ ps) none

pub data ArePools : List Pool → Type 0 where
  pools_none : ArePools []
  pools_more : (p : Pool) {ps : List Pool} → IsPool p → ArePools ps → ArePools (p ∷ ps)

here_or-InPools :
    (p : Pool) (ps : List Pool) (r : Option (ℕ × List Pool)) (o : Option (ℕ × Pool))
    → InPools ps r
    → Allocates p o
    → InPools (p ∷ ps) (here_or p ps r o)
here_or-InPools p ps r (some (a, q)) i w = in_first p q ps a w
here_or-InPools p ps none none i w = in_full p ps w i
here_or-InPools p ps (some (a, qs)) none i w = in_later p ps qs a w i

allocate_in-InPools : (ps : List Pool) → ArePools ps → InPools ps (allocate_in ps)
unfolding allocate_in
allocate_in-InPools [] w = in_none
allocate_in-InPools (p ∷ ps) (pools_more _ w ws) =
    here_or-InPools p ps _ _ (allocate_in-InPools ps ws) (allocate-Allocates p w)

fresh_pool : {n : ℕ} {p : Pool} → IsFresh n p → IsPool p
fresh_pool (is_fresh w l u f) = w

-- A fresh pool is not full.
fresh_free : (n : ℕ) (p : Pool) → 0 < n → IsFresh n p → ¬ (Allocates p none)
fresh_free n p h (is_fresh w l u f) (gives_none g) = cc (f 0, g 0 (omega arith))

last_free :
    (n : ℕ) (p : Pool) (ps : List Pool) → 0 < n → IsFresh n p → ¬ (InPools (ps ++ (p ∷ [])) none)
last_free n p [] h w (in_full _ _ g i) = fresh_free n p h w g
last_free n p (q ∷ ps) h w (in_full _ _ g i) = last_free n p ps h w i

ArePools-append : (ps : List Pool) (p : Pool) → ArePools ps → IsPool p → ArePools (ps ++ (p ∷ []))
ArePools-append [] p pools_none v = pools_more p v pools_none
ArePools-append (q ∷ ps) p (pools_more _ w ws) v = pools_more q w (ArePools-append ps p ws v)

-- Objects of some size in pools of some length.
pub data IsCache (c : Cache) : Type 0 where
  is_cache :
      ArePools c.pools.items
      → IsArray c.pools
      → length c.pools.items + 1 < 2 ^ 62
      → 0 < c.object_size
      → 0 < c.object_count
      → c.object_count + 31 < 2 ^ 64
      → (c.object_count + 31) * c.object_size < 2 ^ 64
      → IsCache c

-- `Pool::make` has given nothing, as the allocator has refused the objects, or the words, where the
-- objects were given back.
pub data Unmade {M : Type 0} (al : Allocator M) (size n : ℕ) (m0 : M) : M → Type 0 where
  no_objects : (m : M) → al.allocate m0 (object_bytes size n) ≡ (none, m) → Unmade al size n m0 m
  no_words :
      (at : ℕ) (m1 m2 : M)
      → al.allocate m0 (object_bytes size n) ≡ (some at, m1)
      → al.allocate m1 (round_words n / 32 * 4) ≡ (none, m2)
      → Unmade al size n m0 (al.deallocate m2 (some at) (object_bytes size n))

-- A slot in the pools there are; or in a fresh one behind them, if these are full; or null, if these
-- are full and no pool could be made, or the row of pools could not grow, and the cache is as it was.
pub data Serves {M : Type 0} (al : Allocator M) (c : Cache) (m0 : M) : Reply M → Type 0 where
  serves :
      (a : ℕ) (ps : List Pool)
      → InPools c.pools.items (some (a, ps))
      → Serves al c m0 (some (some a, record c { pools = record c.pools { items = ps } }, m0))
  serves_fresh :
      (a : ℕ) (p : Pool) (d : Cache) (m : M)
      → InPools c.pools.items none
      → IsFresh c.object_count p
      → InPools (c.pools.items ++ (p ∷ [])) (some (a, d.pools.items))
      → Serves al c m0 (some (some a, d, m))
  serves_none :
      (m : M)
      → InPools c.pools.items none
      → Unmade al c.object_size c.object_count m0 m
      → Serves al c m0 (some (none, c, m))
  serves_no_room :
      (p : Pool) (m1 m2 : M)
      → InPools c.pools.items none
      → make_pool al c.object_size c.object_count m0 ≡ (some p, m1)
      → Refused al m2
      → Serves al c m0 (some (none, c, dropped al p m2))

module _ {M : Type 0} (al : Allocator M) where
  -- The pool that was made.
  data Makes (size n : ℕ) (m0 : M) : Option Pool × M → Type 0 where
    makes : (p : Pool) (m : M) → IsFresh n p → Makes size n m0 (some p, m)
    makes_none : (m : M) → Unmade al size n m0 m → Makes size n m0 (none, m)

  with_words-Makes :
      (at size n : ℕ) (m0 m1 : M) (r : Option ℕ × M)
      → 0 < size
      → (n + 31) * size < 2 ^ 64
      → n + 31 < 2 ^ 64
      → al.allocate m0 (object_bytes size n) ≡ (some at, m1)
      → al.allocate m1 (round_words n / 32 * 4) ≡ r
      → Makes size n m0 (with_words al at (object_bytes size n) size n r)
  unfolding make
  with_words-Makes at size n m0 m1 (none, m) s z h e d = makes_none _ (no_words at m1 m e d)
  with_words-Makes at size n m0 m1 (some w, m) s z h e d =
      makes _ m (make-IsFresh at w size n _ s z h refl)

  with_objects-Makes :
      (size n : ℕ) (m0 : M) (r : Option ℕ × M)
      → 0 < size
      → (n + 31) * size < 2 ^ 64
      → n + 31 < 2 ^ 64
      → al.allocate m0 (object_bytes size n) ≡ r
      → Makes size n m0 (with_objects al (object_bytes size n) size n r)
  with_objects-Makes size n m0 (none, m) s z h e = makes_none m (no_objects m e)
  with_objects-Makes size n m0 (some at, m) s z h e = with_words-Makes at size n m0 m _ s z h e refl

  make_pool-Makes :
      (size n : ℕ) (m : M)
      → 0 < size
      → (n + 31) * size < 2 ^ 64
      → n + 31 < 2 ^ 64
      → Makes size n m (make_pool al size n m)
  unfolding make_pool
  make_pool-Makes size n m s z h =
      with_objects-Makes size n m (al.allocate m (object_bytes size n)) s z h refl

  -- A call with a fresh pool behind the others.
  second-Serves :
      (f : ℕ) (c d : Cache) (p : Pool) (m0 m : M)
      → 0 < c.object_count
      → InPools c.pools.items none
      → ArePools c.pools.items
      → IsFresh c.object_count p
      → d.pools.items ≡ c.pools.items ++ (p ∷ [])
      → Serves al c m0 (allocate al (suc f) d m)
  unfolding allocate
  second-Serves f c d p m0 m h n w v e = found (allocate_in d.pools.items) (
      subst (λ ps. InPools ps (allocate_in d.pools.items)) e
        (allocate_in-InPools d.pools.items
          (rw e (ArePools-append c.pools.items p w (fresh_pool v)))))
    where
      found :
          (o : Option (ℕ × List Pool))
          → InPools (c.pools.items ++ (p ∷ [])) o
          → Serves al c m0 (or_more al (allocate al f) d m o)
      found none i = absurd (last_free c.object_count p c.pools.items h v i)
      found (some (a, ps)) i = serves_fresh a p _ m n v i

  added-Serves :
      (f : ℕ) (c : Cache) (p : Pool) (m0 m1 : M) (r : Arrays.Outcome Pool M)
      → IsCache c
      → InPools c.pools.items none
      → make_pool al c.object_size c.object_count m0 ≡ (some p, m1)
      → IsFresh c.object_count p
      → Appends al c.pools (p ∷ []) r
      → Serves al c m0 (added al (allocate al (suc f)) c p r)
  added-Serves f c p m0 m1 _ (is_cache w x l s h b z) n q v (appends ps m e y) =
      second-Serves f c _ p m0 m h n w v e
  added-Serves f c p m0 m1 _ w n q v (appends_some ps m k l e y r) = serves_no_room p m1 m n q r

  with_pool-Serves :
      (f : ℕ) (c : Cache) (m0 : M) (r : Option Pool × M)
      → IsCache c
      → InPools c.pools.items none
      → make_pool al c.object_size c.object_count m0 ≡ r
      → Makes c.object_size c.object_count m0 r
      → Serves al c m0 (with_pool al (allocate al (suc f)) c r)
  with_pool-Serves f c m0 _ (is_cache w x l s h b z) n q (makes p m v) =
      added-Serves f c p m0 m _ (is_cache w x l s h b z) n q v
        (push_back-Appends al pool_bytes c.pools p m x l)
  with_pool-Serves f c m0 _ w n q (makes_none m r) = serves_none m n r

  -- With two units of fuel, `Cache::allocate` returns over any allocator, if the pools are well
  -- formed and fewer than 2 ^ 62 - 1, and the cache asks for some objects of some size, fewer
  -- than 2 ^ 64 - 31 and with 31 more less than 2 ^ 64 bytes in all: it gives the first free
  -- slot of the first pool that has one; or one of a fresh pool behind the others, if all are
  -- full; or null with the cache as it was, if all are full and the allocator has refused the
  -- objects or the words of a fresh pool, or room for it in the row of pools.
  pub allocate-Serves :
      (f : ℕ) (c : Cache) (m : M) → IsCache c → Serves al c m (allocate al (suc (suc f)) c m)
  unfolding allocate
  allocate-Serves f c m (is_cache w x l s h b z) =
      first (allocate_in c.pools.items) (allocate_in-InPools c.pools.items w)
    where
      first :
          (o : Option (ℕ × List Pool))
          → InPools c.pools.items o
          → Serves al c m (or_more al (allocate al (suc f)) c m o)
      first none i =
          with_pool-Serves f c m _ (is_cache w x l s h b z) i refl
            (make_pool-Makes c.object_size c.object_count m s z b)
      first (some (a, ps)) i = serves a ps i
