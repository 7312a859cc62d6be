-- ===== src/Basic/LruCache/Laws.antt =====
-- How many items the cache holds after a new one.
use libpeco.Base.{
  ℕ, zero, suc, ◌≤◌, Bool, true, false, List, [], ◌∷◌, Option, some, ◌≡◌, refl, arith, length, ltb,
  Bool-cases, inl, inr,
}
use libpeco.Basic.LruCache.{
  LruCache, contains_key, erase_key, find_item, erase_item, pop_back, evict, get, contains, erase,
  clear, size,
}

module _ {K V : Type 0} (eq : K → K → Bool) where
  pub length-pop_back :
      (i : K × V) (l : List (K × V)) (m : List K) → length (pop_back eq (i ∷ l) m).0 ≡ length l
  unfolding pop_back
  length-pop_back i [] m = refl
  length-pop_back i (j ∷ l) m = omega (arith, length-pop_back j l m)

  length-pop_back-le :
      (l : List (K × V)) (m : List K) (n : ℕ) → length l ≤ suc n → length (pop_back eq l m).0 ≤ n
  length-pop_back-le [] m n h = unfold pop_back in omega arith
  length-pop_back-le (i ∷ l) m n h = rw (length-pop_back i l m) (omega arith)

  length-evict :
      (n : ℕ) (c : LruCache K V)
      → length c.item_pool ≤ n
      → (length (evict eq n c).item_pool ≤ c.cache_size)
        × ((evict eq n c).cache_size ≡ c.cache_size)
  unfolding evict
  length-evict zero c h = (omega arith, refl)
  length-evict (suc n) c h = elim (Bool-cases (ltb c.cache_size (length c.item_pool))) [
    | inl e ↦
        let (p, m) = pop_back eq c.item_pool c.index_map in
        rw e (
          length-evict n
            (record c {
              item_pool = (pop_back eq c.item_pool c.index_map).0;
              index_map = (pop_back eq c.item_pool c.index_map).1;
            })
            (length-pop_back-le c.item_pool c.index_map n h))
    | inr e ↦ rw e (ground arith, refl)
  ]

  -- The clearing loop ends: after as many rounds as there are items, at most as many are left as
  -- the cache size, which stays.
  pub size-evict :
      (c : LruCache K V)
      → (size eq (evict eq (size eq c) c) ≤ c.cache_size)
        × ((evict eq (size eq c) c).cache_size ≡ c.cache_size)
  unfolding size
  size-evict c = length-evict (length c.item_pool) c (omega arith)

  length-erase_item :
      (k : K) (v : V) (l : List (K × V))
      → find_item eq k l ≡ some v
      → suc (length (erase_item eq k l)) ≡ length l
  unfolding find_item erase_item
  length-erase_item k v [] h = absurd (cc)
  length-erase_item k v ((x, w) ∷ l) h = ground (arith, length-erase_item k v l)

  -- A key that the cache holds is fetched without an action: its item moves to the front with its
  -- value, the number of items and the keys stay, whatever the fetch action is.
  pub get-find_item :
      (fa : Option (K → LruCache K V → V × LruCache K V)) (empty_value v : V) (k : K)
      (c : LruCache K V)
      → contains eq k c ≡ true
      → find_item eq k c.item_pool ≡ some v
      → (get eq fa empty_value k c
          ≡ some (record c { item_pool = (k, v) ∷ erase_item eq k c.item_pool }))
        × (length ((k, v) ∷ erase_item eq k c.item_pool) ≡ size eq c)
  unfolding get contains size
  get-find_item fa empty_value v k c h f =
      (rw (h, f, get) refl, length-erase_item k v c.item_pool f)

contains_key-erase_key :
    {K : Type 0} (eq : K → K → Bool) (k : K) (m : List K)
    → contains_key eq k (erase_key eq k m) ≡ false
unfolding contains_key erase_key
contains_key-erase_key eq k [] = refl
contains_key-erase_key eq k (x ∷ m) = ground (arith, contains_key-erase_key eq k m)

-- After a key is erased, or everything is cleared, the cache does not contain it.
pub contains-erase :
    {K V : Type 0} (eq : K → K → Bool) (k : K) (c : LruCache K V)
    → (contains eq k (erase eq k c) ≡ false) × (contains eq k (clear eq c) ≡ false)
unfolding contains erase clear contains_key
contains-erase eq k c = elim (Bool-cases (contains_key eq k c.index_map)) [
  | inl e ↦ (rw e (contains_key-erase_key eq k c.index_map), refl)
  | inr e ↦ (rw e e, refl)
]
