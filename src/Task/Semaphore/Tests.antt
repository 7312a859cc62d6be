-- ===== src/Task/Semaphore/Tests.antt =====
-- A semaphore at a concrete loop.
use libpeco.Base.{false, [], ◌∷◌, some, ◌≡◌, refl, Yields, ◌>>=◌}
use libpeco.Task.Types.{received}
use libpeco.Task.Loop.Calls.{InSlice}
use libpeco.Task.Cache.{fetch_task, find_task}
use libpeco.Task.Api.{is_alive, wakeup}
use libpeco.Task.Samples.{running_16, running_16-InSlice}
use libpeco.Task.Semaphore.{Semaphore, give, cancel}
use libpeco.Task.Semaphore.Laws.{give-first, give-cancel-InSlice}

-- Task 48 is gone, and task 32 waits.
abbrev two_wait : Semaphore
two_wait = record { count = 0; waiting_task = 48 ∷ 32 ∷ [] }

gone_48 : is_alive 48 running_16 ≡ false
unfolding is_alive fetch_task find_task
gone_48 = refl

give-first_example :
    give 9 two_wait running_16
    ≡ (wakeup 9 32 received running_16 >>= λ l'. some (record two_wait { waiting_task = [] }, l'))
give-first_example =
    give-first 9 two_wait running_16 (48 ∷ []) 32 [] (gone_48, tt)
      (unfold is_alive fetch_task find_task in refl) refl

give-cancel-InSlice_example :
    Yields (give 9 two_wait running_16) (λ o. InSlice 16 o.1)
    × Yields (cancel (λ k. k) two_wait running_16) (λ o. InSlice 16 o.1 × (o.0.waiting_task ≡ []))
give-cancel-InSlice_example =
    give-cancel-InSlice 16 9 (λ k. k) two_wait running_16 running_16-InSlice
