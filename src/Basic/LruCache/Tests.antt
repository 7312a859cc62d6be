-- ===== src/Basic/LruCache/Tests.antt =====
-- A cache of two items.
use libpeco.Base.{true, ℕ, [], ◌∷◌, none, ◌≡◌, refl, ◌==◌, List, Yields, ==→eq, ==_self, arith}
use libpeco.Basic.LruCache.{LruCache, contains_key, find_item, contains}
use libpeco.Basic.LruCache.Assign.{contains-assign}
use libpeco.Basic.LruCache.{assign}
use libpeco.Basic.LruCache.Recent.{Operation, get_item, put_item, erase_at}
use libpeco.Basic.LruCache.Holds.{IsIndexed, Holds}
use libpeco.Basic.LruCache.Refines.{run, spec_run, run-spec_run}

abbrev two_items : LruCache ℕ ℕ
two_items = record { item_pool = (1, 10) ∷ (2, 20) ∷ []; index_map = 2 ∷ 1 ∷ []; cache_size = 1 }

abbrev full_cache : LruCache ℕ ℕ
full_cache = record { item_pool = (1, 10) ∷ (2, 20) ∷ []; index_map = 2 ∷ 1 ∷ []; cache_size = 2 }

full_cache-IsIndexed : IsIndexed ◌==◌ full_cache
unfolding contains_key
full_cache-IsIndexed = ((λ k. ground arith), ((refl, (refl, tt)), omega arith))

-- A new key drives out the one that was used least recently.
abbrev calls : List (Operation ℕ ℕ)
calls = get_item 2 ∷ put_item 3 30 ∷ erase_at 2 ∷ []

run-spec_run_example :
    Yields
      (run ◌==◌ 0 calls full_cache)
      (Holds ◌==◌ 2 (spec_run ◌==◌ 2 0 calls full_cache.item_pool))
run-spec_run_example =
    run-spec_run ◌==◌ ==→eq ==_self 0 calls full_cache full_cache-IsIndexed (omega arith)

contains-assign_example :
    (contains ◌==◌ 2 (assign ◌==◌ (record full_cache { item_pool = [] }) full_cache) ≡ true)
    × (find_item ◌==◌ 2 (assign ◌==◌ (record full_cache { item_pool = [] }) full_cache).item_pool
        ≡ none)
contains-assign_example =
    contains-assign ◌==◌ 2 (record full_cache { item_pool = [] }) full_cache
      (unfold contains contains_key in refl) (unfold find_item in refl)
