-- ===== src/Task/StackCache.antt =====
-- The cache of stack buffers in src/task/impl/stackcache.cpp, one for each thread. A buffer is a
-- number; what make_shared gives when the cache is empty is a parameter. The maximal count has no
-- initial value in the code: the object is static, so it starts as 0.
pub mod Laws
mod Tests
use libpeco.Base.{ℕ, Bool, List, [], ◌∷◌, ◌++◌, length, ltb, leb, if◌then◌else◌}

pub record StackCache : Type 0 where
  pub max_count : ℕ
  pub cache_list : List ℕ

abbrev pub instance_cache : StackCache
instance_cache = record { max_count = 0; cache_list = [] }

-- The buffer, and the cache behind the call.
unfoldable pub fetch_buffer : ℕ → StackCache → ℕ × StackCache
fetch_buffer fresh c = elim c.cache_list [
  | [] ↦ (fresh, c)
  | b ∷ bs ↦ (b, record c { cache_list = bs })
]

unfoldable pub release_buffer : ℕ → StackCache → StackCache
release_buffer b c =
    if leb c.max_count (length c.cache_list)
    then c
    else record c { cache_list = c.cache_list ++ b ∷ [] }

abbrev pub set_cache_count : ℕ → StackCache → StackCache
set_cache_count n c = record c { max_count = n }

abbrev pub free_count : StackCache → ℕ
free_count c = length c.cache_list
