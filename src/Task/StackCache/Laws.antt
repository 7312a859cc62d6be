-- ===== src/Task/StackCache/Laws.antt =====
-- Tasks that take buffers from the cache and give them back, in any order.
use libpeco.Base.{
  ℕ, suc, ◌+◌, ◌≤◌, ◌<◌, List, [], ◌∷◌, ◌++◌, ◌≡◌, arith, length, length-append, leb, ltb, ◌==◌,
  if◌then◌else◌, Bool-cases, inl, inr,
}
use libpeco.Task.StackCache.{StackCache, fetch_buffer, release_buffer, set_cache_count, free_count}

-- The cache, the buffers that tasks have, and a number that no buffer has yet.
pub record Buffers : Type 0 where
  pub cache : StackCache
  pub used : List ℕ
  pub next : ℕ

unfoldable pub count : ℕ → List ℕ → ℕ
count x [] = 0
count x (b ∷ bs) = (if b == x then 1 else 0) + count x bs

unfoldable pub take_out : ℕ → List ℕ → List ℕ
take_out b [] = []
take_out b (c ∷ bs) = if c == b then bs else c ∷ take_out b bs

-- A task takes a buffer, one gives back a buffer that it has, or the maximal count is set.
pub data Step (limit : ℕ) : Buffers → Buffers → Type 0 where
  fetches :
      {u : Buffers}
      → Step limit u (record {
        cache = (fetch_buffer u.next u.cache).1;
        used = (fetch_buffer u.next u.cache).0 ∷ u.used;
        next = suc u.next;
      })
  releases :
      {u : Buffers} (b : ℕ)
      → 0 < count b u.used
      → Step limit u (record u { cache = release_buffer b u.cache; used = take_out b u.used })
  sets :
      {u : Buffers} (n : ℕ)
      → n ≤ limit
      → Step limit u (record u { cache = set_cache_count n u.cache })

pub data Steps (limit : ℕ) : Buffers → Buffers → Type 0 where
  done : {u : Buffers} → Steps limit u u
  after : {u v w : Buffers} → Step limit u v → Steps limit v w → Steps limit u w

-- Every buffer is in the cache once, or with a task once, or nowhere; the cache stays within the
-- limit.
abbrev pub IsOwned : ℕ → Buffers → Type 0
IsOwned limit u =
    ((x : ℕ) → count x u.cache.cache_list + count x u.used ≤ (if ltb x u.next then 1 else 0))
    × ((free_count u.cache ≤ limit) × (u.cache.max_count ≤ limit))

count-append : (x : ℕ) (bs cs : List ℕ) → count x (bs ++ cs) ≡ count x bs + count x cs
unfolding count
count-append x [] cs = omega arith
count-append x (b ∷ bs) cs = omega (arith, count-append x bs cs)

count-take_out :
    (x b : ℕ) (bs : List ℕ)
    → 0 < count b bs
    → count x (take_out b bs) + (if b == x then 1 else 0) ≡ count x bs
unfolding count take_out
count-take_out x b [] h = absurd (omega arith)
count-take_out x b (c ∷ bs) h = ground (arith, count-take_out x b bs)

IsOwned-fetch :
    (limit m n : ℕ) (l us : List ℕ)
    → IsOwned limit
        (record { cache = record { max_count = m; cache_list = l }; used = us; next = n })
    → IsOwned limit (record {
      cache = (fetch_buffer n (record { max_count = m; cache_list = l })).1;
      used = (fetch_buffer n (record { max_count = m; cache_list = l })).0 ∷ us;
      next = suc n;
    })
unfolding fetch_buffer count
IsOwned-fetch limit m n [] us (h, (k, j)) = ((λ x. ground (arith, h x)), (k, j))
IsOwned-fetch limit m n (b ∷ l) us (h, (k, j)) = ((λ x. ground (arith, h x)), (omega (arith, k), j))

IsOwned-release :
    (limit b m n : ℕ) (l us : List ℕ)
    → 0 < count b us
    → IsOwned limit
        (record { cache = record { max_count = m; cache_list = l }; used = us; next = n })
    → IsOwned limit (record {
      cache = release_buffer b (record { max_count = m; cache_list = l });
      used = take_out b us;
      next = n;
    })
unfolding release_buffer
IsOwned-release limit b m n l us c (h, (k, j)) = elim (Bool-cases (leb m (length l))) [
  | inl e ↦ rw e ((λ x. omega (arith, h x, count-take_out x b us c)), (k, j))
  | inr e ↦ rw e (
    (λ x. unfold count in omega (arith, h x, count-take_out x b us c, count-append x l (b ∷ []))),
    (ground (arith, length-append l (b ∷ [])), j),
  )
]

Step-IsOwned : (limit : ℕ) {u v : Buffers} → Step limit u v → IsOwned limit u → IsOwned limit v
Step-IsOwned limit {u} fetches h =
    IsOwned-fetch limit u.cache.max_count u.next u.cache.cache_list u.used h
Step-IsOwned limit {u} (releases b c) h =
    IsOwned-release limit b u.cache.max_count u.next u.cache.cache_list u.used c h
Step-IsOwned limit (sets n k) (h, (f, j)) = (h, (f, k))

-- Whatever tasks do, no buffer is handed to two of them, or to one while it is in the cache, and the
-- cache never holds more than the largest count that is set.
pub Steps-IsOwned :
    (limit : ℕ) {u v : Buffers} → Steps limit u v → IsOwned limit u → IsOwned limit v
Steps-IsOwned limit done h = h
Steps-IsOwned limit (after s ss) h = Steps-IsOwned limit ss (Step-IsOwned limit s h)
