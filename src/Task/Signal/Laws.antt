-- ===== src/Task/Signal/Laws.antt =====
-- What a signal does for the task whose code calls it.
use libpeco.Base.{
  ℕ, suc, true, false, List, [], ◌∷◌, ◌++◌, some, ◌≡◌, ◌≢◌, refl, ap, All, Yields, Yields_if, ◌>>=◌,
}
use libpeco.Task.Types.{TaskId, Time, nothing, received}
use libpeco.Task.Loop.{Loop}
use libpeco.Task.Loop.Calls.{InSlice, After}
use libpeco.Task.Api.{is_alive, wakeup}
use libpeco.Task.Api.Keeps
use libpeco.Task.Waiting.{pop_alive}
use libpeco.Task.Waiting.Keeps.{leave-append, pop_alive-append, wait_in-After, wake_each-InSlice}
use libpeco.Task.Signal.{
  Signal, wait, waited, triggered, trigger_one, trigger_each, trigger_all, cancel,
}

-- A running task that does not wait on the signal yet waits behind every other task, and if nobody
-- has popped it when it is back, the signal is as it was before.
pub wait-waited :
    (r : TaskId) (s : Signal) (l : Loop)
    → InSlice r l
    → All (λ t. t ≢ r) s
    → Yields (wait s l) (λ o. After r o.1 × (o.0 ≡ s ++ r ∷ []) × (waited r o.0 ≡ s))
unfolding wait waited
wait-waited r s l v h =
    let (o, e, (w, p)) = wait_in-After r l v s in (o, e, (p, w, rw w (leave-append r s h)))

-- trigger_one wakes the first living task in the list: the dead ids before it go with it, and the
-- order of the others stays.
pub trigger_one-first :
    (now : Time) (s : Signal) (l : Loop) (gone : List TaskId) (tid : TaskId) (ids : List TaskId)
    → All (λ t. is_alive t l ≡ false) gone
    → is_alive tid l ≡ true
    → s ≡ gone ++ tid ∷ ids
    → trigger_one now s l ≡ (wakeup now tid received l >>= λ l'. some (ids, l'))
unfolding trigger_one triggered
trigger_one-first now s l gone tid ids h a e =
    let popped : pop_alive l s ≡ (some tid, ids) = rw e (pop_alive-append l tid gone ids h a) in
    ap (triggered now l) popped

trigger_each-InSlice :
    (r : TaskId) (clock : ℕ → Time) (k : ℕ) (ids : List TaskId) (l : Loop)
    → InSlice r l
    → Yields (trigger_each clock k ids l) (InSlice r)
unfolding trigger_each
trigger_each-InSlice r clock k [] l v = (l, refl, v)
trigger_each-InSlice r clock k (tid ∷ ids) l v =
    Yields_if _ (is_alive tid l) _ _
      (λ _.
        let (l1, e1, v1) = Keeps.wakes-InSlice r l v (clock k) tid received in
        let (l2, e2, v2) = trigger_each-InSlice r clock (suc k) ids l1 v1 in (l2, rw e1 e2, v2))
      λ _. trigger_each-InSlice r clock (suc k) ids l v

-- Called by a running task, trigger_all and cancel succeed and leave nobody waiting: no assert
-- fails, no pointer is null, and list and cache agree afterwards.
pub trigger_all-cancel-InSlice :
    (r : TaskId) (clock : ℕ → Time) (s : Signal) (l : Loop)
    → InSlice r l
    → Yields (trigger_all clock s l) (λ o. InSlice r o.1 × (o.0 ≡ []))
      × Yields (cancel clock s l) (λ o. InSlice r o.1 × (o.0 ≡ []))
unfolding trigger_all cancel trigger_each
trigger_all-cancel-InSlice r clock s l v =
    let (l1, e1, v1) = trigger_each-InSlice r clock 0 s l v in
    let (l2, e2, v2) = wake_each-InSlice r clock 0 nothing s l v in
    ((([], l1), rw e1 refl, (v1, refl)), (([], l2), rw e2 refl, (v2, refl)))
