-- ===== src/Basic/LruCache.antt =====
-- The class template lrucache of src/basic/lrucache.h. The pool is the list of items from its
-- front, and the index the list of its keys: each iterator in it points to the item with that key.
-- `none` stands for the dereference of an iterator that is not there. After an assignment the index
-- may hold a key without an item; what its iterator points to is left open.
pub mod Laws
pub mod Assign
pub mod Recent
pub mod Evict
pub mod Holds
pub mod Refines
mod Tests
use libpeco.Base.{
  ℕ, zero, suc, Bool, true, false, List, [], ◌∷◌, Option, none, some, length, ltb, if◌then◌else◌,
  ◌>>=◌,
}

pub record LruCache (K V : Type 0) : Type 0 where
  pub item_pool : List (K × V)
  pub index_map : List K
  pub cache_size : ℕ

module _ {K : Type 0} (eq : K → K → Bool) where
  unfoldable pub contains_key : K → List K → Bool
  contains_key k [] = false
  contains_key k (x ∷ xs) = if eq x k then true else contains_key k xs

  unfoldable pub erase_key : K → List K → List K
  erase_key k [] = []
  erase_key k (x ∷ xs) = if eq x k then erase_key k xs else x ∷ erase_key k xs

module _ {K V : Type 0} (eq : K → K → Bool) where
  -- The item behind an iterator, and the pool without it.
  unfoldable pub find_item : K → List (K × V) → Option V
  find_item k [] = none
  find_item k ((x, v) ∷ l) = if eq x k then some v else find_item k l

  unfoldable pub erase_item : K → List (K × V) → List (K × V)
  erase_item k [] = []
  erase_item k ((x, v) ∷ l) = if eq x k then l else (x, v) ∷ erase_item k l

  -- pop_back of the pool, whose last key leaves the index.
  unfoldable pub pop_back : List (K × V) → List K → List (K × V) × List K
  pop_back [] m = ([], m)
  pop_back ((x, v) ∷ []) m = ([], erase_key eq x m)
  pop_back (i ∷ j ∷ l) m = let (p, m') = pop_back (j ∷ l) m in (i ∷ p, m')

  -- The loop that removes the last item; each round makes the pool shorter, so as many rounds as
  -- it has items are enough.
  unfoldable pub evict : ℕ → LruCache K V → LruCache K V
  evict zero c = c
  evict (suc n) c =
      let (p, m) = pop_back c.item_pool c.index_map in
      let rest = evict n (record c { item_pool = p; index_map = m }) in
      if ltb c.cache_size (length c.item_pool) then rest else c

  -- A new item at the front, with its index, and the clearing behind it.
  unfoldable pub add_front : K → V → LruCache K V → Option (LruCache K V)
  add_front k v c =
      let c' = evict (suc (length c.item_pool)) (record c {
        item_pool = (k, v) ∷ c.item_pool;
        index_map = k ∷ erase_key eq k c.index_map;
      }) in
      if contains_key eq k c'.index_map then some c' else none

  -- get, with the cache it leaves; what it returns refers to the item with the key. The fetch
  -- action may itself change the cache.
  unfoldable pub get :
      Option (K → LruCache K V → V × LruCache K V) → V → K → LruCache K V → Option (LruCache K V)
  get fa empty_value k c =
      if contains_key eq k c.index_map
      then (find_item k c.item_pool >>= λ v.
          some (record c { item_pool = (k, v) ∷ erase_item k c.item_pool }))
      else elim fa [
        | none ↦ add_front k empty_value c
        | some f ↦
            let (v, c') = f k c in
            if contains_key eq k c'.index_map then some c' else add_front k v c'
      ]

  -- A write through the reference that get returned.
  unfoldable pub assign_item : K → V → List (K × V) → List (K × V)
  assign_item k w [] = []
  assign_item k w ((x, v) ∷ l) = if eq x k then (x, w) ∷ l else (x, v) ∷ assign_item k w l

  unfoldable pub put : V → K → V → LruCache K V → Option (LruCache K V)
  put empty_value k w c = do
    c' ← get none empty_value k c
    some (record c' { item_pool = assign_item k w c'.item_pool })

  unfoldable pub erase : K → LruCache K V → LruCache K V
  erase k c =
      if contains_key eq k c.index_map
      then record c { item_pool = erase_item k c.item_pool; index_map = erase_key eq k c.index_map }
      else c

  unfoldable pub contains : K → LruCache K V → Bool
  contains k c = contains_key eq k c.index_map

  unfoldable pub clear : LruCache K V → LruCache K V
  clear c = record c { item_pool = []; index_map = [] }

  unfoldable pub set_cache_size : ℕ → LruCache K V → LruCache K V
  set_cache_size s c = record c { cache_size = s }

  unfoldable pub size : LruCache K V → ℕ
  size c = length c.item_pool

  -- The loop that points the index to the items of the pool.
  unfoldable pub reindex : List (K × V) → List K → List K
  reindex [] m = m
  reindex ((x, v) ∷ l) m = reindex l (if contains_key eq x m then m else x ∷ m)

  -- The copy constructor, and the assignment, which keeps what its index held.
  unfoldable pub copy : LruCache K V → LruCache K V
  unfolding reindex
  copy r = record r { index_map = reindex r.item_pool [] }

  unfoldable pub assign : LruCache K V → LruCache K V → LruCache K V
  unfolding reindex
  assign r c = record r { index_map = reindex r.item_pool c.index_map }
