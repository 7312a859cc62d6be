-- ===== src/Task/Signal/Tests.antt =====
-- A signal at a concrete loop.
use libpeco.Base.{false, true, [], ◌∷◌, ◌≡◌, refl, Yields}
use libpeco.Task.Loop.Calls.{InSlice}
use libpeco.Task.Cache.{fetch_task, find_task}
use libpeco.Task.Api.{is_alive}
use libpeco.Task.Samples.{running_16, running_16-InSlice}
use libpeco.Task.Signal.{trigger_all, cancel}
use libpeco.Task.Signal.Laws.{trigger_all-cancel-InSlice}

gone_48 : is_alive 48 running_16 ≡ false
unfolding is_alive fetch_task find_task
gone_48 = refl

alive_32 : is_alive 32 running_16 ≡ true
unfolding is_alive fetch_task find_task
alive_32 = refl

trigger_all-cancel-InSlice_example :
    Yields (trigger_all (λ k. k) (48 ∷ 32 ∷ []) running_16) (λ o. InSlice 16 o.1 × (o.0 ≡ []))
    × Yields (cancel (λ k. k) (48 ∷ 32 ∷ []) running_16) (λ o. InSlice 16 o.1 × (o.0 ≡ []))
trigger_all-cancel-InSlice_example =
    trigger_all-cancel-InSlice 16 (λ k. k) (48 ∷ 32 ∷ []) running_16 running_16-InSlice
