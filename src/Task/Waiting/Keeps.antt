-- ===== src/Task/Waiting/Keeps.antt =====
-- Waiting and waking from the code of a running task.
use libpeco.Base.{
  ℕ, suc, true, false, List, [], ◌∷◌, ◌++◌, none, some, ◌≡◌, ◌≢◌, refl, arith, All, Yields,
}
use libpeco.Task.Types.{TaskId, Time, WaitingSignal}
use libpeco.Task.Loop.{Loop}
use libpeco.Task.Loop.Calls.{InSlice, After}
use libpeco.Task.Api.{is_alive}
use libpeco.Task.Api.Keeps.{this_task_current, wakes-InSlice, holds-After, holds_for-After}
use libpeco.Task.Waiting.{leave, pop_alive, wait_in, wait_in_until, wake_each}

pub leave-append :
    (tid : TaskId) (ids : List TaskId) → All (λ t. t ≢ tid) ids → leave tid (ids ++ tid ∷ []) ≡ ids
unfolding leave
leave-append tid [] h = ground arith
leave-append tid (t ∷ ids) h = ground (arith, leave-append tid ids h.1)

pub pop_alive-append :
    (l : Loop) (tid : TaskId) (gone ids : List TaskId)
    → All (λ t. is_alive t l ≡ false) gone
    → is_alive tid l ≡ true
    → pop_alive l (gone ++ tid ∷ ids) ≡ (some tid, ids)
unfolding pop_alive
pop_alive-append l tid [] ids h a = rw a refl
pop_alive-append l tid (t ∷ gone) ids h a = rw h.0 (pop_alive-append l tid gone ids h.1 a)

pub pop_alive-none :
    (l : Loop) (gone : List TaskId)
    → All (λ t. is_alive t l ≡ false) gone
    → pop_alive l gone ≡ (none, [])
unfolding pop_alive
pop_alive-none l [] h = refl
pop_alive-none l (t ∷ gone) h = rw h.0 (pop_alive-none l gone h.1)

module _ (r : TaskId) (l : Loop) (s : InSlice r l) where
  pub wait_in-After :
      (ids : List TaskId) → Yields (wait_in ids l) (λ o. (o.0 ≡ ids ++ r ∷ []) × After r o.1)
  unfolding wait_in
  wait_in-After ids =
      let ((l', c), e, p) = holds-After r l s in
      rw (this_task_current r l s) ((ids ++ r ∷ [], (l', c)), rw e refl, (refl, p))

  pub wait_in_until-After :
      (now : Time) (timedout : ℕ) (ids : List TaskId)
      → Yields (wait_in_until now timedout ids l) (λ o. (o.0 ≡ ids ++ r ∷ []) × After r o.1)
  unfolding wait_in_until
  wait_in_until-After now timedout ids =
      let ((l', c), e, p) = holds_for-After r l s now timedout in
      rw (this_task_current r l s) ((ids ++ r ∷ [], (l', c)), rw e refl, (refl, p))

pub wake_each-InSlice :
    (r : TaskId) (clock : ℕ → Time) (k : ℕ) (g : WaitingSignal) (ids : List TaskId) (l : Loop)
    → InSlice r l
    → Yields (wake_each clock k g ids l) (InSlice r)
unfolding wake_each
wake_each-InSlice r clock k g [] l s = (l, refl, s)
wake_each-InSlice r clock k g (tid ∷ ids) l s =
    let (l1, e1, s1) = wakes-InSlice r l s (clock k) tid g in
    let (l2, e2, s2) = wake_each-InSlice r clock (suc k) g ids l1 s1 in (l2, rw e1 e2, s2)
