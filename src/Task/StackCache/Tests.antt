-- ===== src/Task/StackCache/Tests.antt =====
-- One buffer that goes to a task, back into the cache, and to the next task.
use libpeco.Base.{[], ◌∷◌, ◌≡◌, refl, arith}
use libpeco.Task.StackCache.{instance_cache, fetch_buffer, release_buffer}
use libpeco.Task.StackCache.Laws.{
  Buffers, IsOwned, Steps, fetches, releases, sets, after, done, count, take_out, Steps-IsOwned,
}

abbrev at_start : Buffers
at_start = record { cache = instance_cache; used = []; next = 0 }

at_start-IsOwned : IsOwned 2 at_start
unfolding count
at_start-IsOwned = ((λ x. ground arith), (omega arith, omega arith))

abbrev at_end : Buffers
at_end = record { cache = record { max_count = 1; cache_list = [] }; used = 0 ∷ []; next = 2 }

reused : Steps 2 at_start at_end
unfolding fetch_buffer release_buffer count take_out
reused =
    after (sets 1 (omega arith))
      (after fetches (after (releases 0 (omega arith)) (after fetches done)))

Steps-IsOwned_example : IsOwned 2 at_end
Steps-IsOwned_example = Steps-IsOwned 2 reused at_start-IsOwned

-- Before a maximal count is set no buffer is kept.
dropped : release_buffer 5 instance_cache ≡ instance_cache
unfolding release_buffer
dropped = refl
