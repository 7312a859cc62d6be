-- ===== src/Task/Api/Tests.antt =====
-- The code of a task at a concrete loop.
use libpeco.Base.{[], ◌∷◌, none, ◌⊎◌, ◌≡◌, refl, Yields}
use libpeco.Task.Types.{received, event_read}
use libpeco.Task.Api.{wakes, runs, waits_for, run_actions}
use libpeco.Task.Api.Slice.{Stops, Refused, run_actions-Stops}
use libpeco.Task.Samples.{running_16, running_16-InSlice, bump, bump-IsAllocator}

run_actions-Stops_example :
    Yields
      (run_actions bump
        ((10, wakes 32 received) ∷ (11, runs 2 []) ∷ (12, waits_for 7 event_read 100 16) ∷ [])
        running_16)
      (Stops 16)
    ⊎ (Refused 16 bump
          ((10, wakes 32 received) ∷ (11, runs 2 []) ∷ (12, waits_for 7 event_read 100 16) ∷ [])
          running_16
        × (run_actions bump
              ((10, wakes 32 received) ∷ (11, runs 2 []) ∷ (12, waits_for 7 event_read 100 16) ∷ [])
              running_16
            ≡ none))
run_actions-Stops_example =
    run_actions-Stops 16 bump bump-IsAllocator
      ((10, wakes 32 received) ∷ (11, runs 2 []) ∷ (12, waits_for 7 event_read 100 16) ∷ [])
      running_16 (tt, (tt, (refl, tt))) running_16-InSlice
