-- ===== src/Basic/LruCache/Assign.antt =====
-- The index after an assignment.
use libpeco.Base.{Bool, true, List, [], ◌∷◌, none, if◌then◌else◌, ◌≡◌, arith}
use libpeco.Basic.LruCache.{LruCache, contains_key, find_item, contains, reindex, assign}

module _ {K : Type 0} (eq : K → K → Bool) where
  contains_key-if :
      (k x : K) (b : Bool) (m : List K)
      → contains_key eq k m ≡ true
      → contains_key eq k (if b then m else x ∷ m) ≡ true
  unfolding contains_key
  contains_key-if k x b m h = ground (arith, h)

module _ {K V : Type 0} (eq : K → K → Bool) where
  contains_key-reindex :
      (k : K) (l : List (K × V)) (m : List K)
      → contains_key eq k m ≡ true
      → contains_key eq k (reindex eq l m) ≡ true
  unfolding reindex
  contains_key-reindex k [] m h = h
  contains_key-reindex k ((x, v) ∷ l) m h =
      contains_key-reindex k l (if contains_key eq x m then m else x ∷ m)
        (contains_key-if eq k x (contains_key eq x m) m h)

  -- A key that the cache contains before another cache is assigned to it, which has no item for the
  -- key, is contained afterwards as well, without an item.
  pub contains-assign :
      (k : K) (r c : LruCache K V)
      → contains eq k c ≡ true
      → find_item eq k r.item_pool ≡ none
      → (contains eq k (assign eq r c) ≡ true) × (find_item eq k (assign eq r c).item_pool ≡ none)
  unfolding contains assign
  contains-assign k r c h f = (contains_key-reindex k r.item_pool c.index_map h, f)
