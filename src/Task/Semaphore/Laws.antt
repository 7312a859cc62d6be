-- ===== src/Task/Semaphore/Laws.antt =====
-- What a semaphore does for the task whose code calls it.
use libpeco.Base.{
  ℕ, suc, ◌+◌, ◌-◌, ◌^◌, ◌%◌, ◌<◌, true, false, List, [], ◌∷◌, ◌++◌, Option, none, some, ◌≡◌, ◌≢◌,
  refl, ap, ◌∙◌, arith, All, ltb, Yields, ◌>>=◌,
}
use libpeco.Task.Types.{TaskId, Time, nothing, received}
use libpeco.Task.Loop.{Loop, returns}
use libpeco.Task.Loop.Calls.{InSlice, After}
use libpeco.Task.Api.{is_alive, wakeup}
use libpeco.Task.Api.Keeps
use libpeco.Task.Waiting.{pop_alive}
use libpeco.Task.Waiting.Keeps.{
  leave-append, pop_alive-append, pop_alive-none, wait_in-After, wake_each-InSlice,
}
use libpeco.Task.Semaphore.{Semaphore, fetch, fetched, given, give, cancel}

-- Without a count, the running task, which does not wait on the semaphore yet, waits at the end of
-- the list, behind every other task; when it is back and nobody has popped it, the semaphore is as
-- it was before.
pub fetch-fetched :
    (r : TaskId) (s : Semaphore) (l : Loop)
    → InSlice r l
    → All (λ t. t ≢ r) s.waiting_task
    → s.count ≡ 0
    → Yields
        (fetch s l)
        (λ o. After r o.1 × (o.0.waiting_task ≡ s.waiting_task ++ r ∷ []) × (fetched r o.0 ≡ s))
unfolding fetch fetched
fetch-fetched r s l v h z =
    let none_left : ltb 0 s.count ≡ false = ground arith in
    let (o, e, (w, p)) = wait_in-After r l v s.waiting_task in
    (
      (record s { waiting_task = o.0 }, o.1),
      rw (none_left, e) refl,
      (p, w, rw (w, fetched, leave-append r s.waiting_task h) refl),
    )

-- If a living task waits, give wakes the first one with a signal: the dead ids before it go with
-- it, and the count and the order of the others stay.
pub give-first :
    (now : Time) (s : Semaphore) (l : Loop) (gone : List TaskId) (tid : TaskId) (ids : List TaskId)
    → All (λ t. is_alive t l ≡ false) gone
    → is_alive tid l ≡ true
    → s.waiting_task ≡ gone ++ tid ∷ ids
    → give now s l
      ≡ (wakeup now tid received l >>= λ l'. some (record s { waiting_task = ids }, l'))
unfolding give given
give-first now s l gone tid ids h a e =
    let popped : pop_alive l s.waiting_task ≡ (some tid, ids) =
      rw e (pop_alive-append l tid gone ids h a) in
    ap (given now s l) popped

pub fetch_one :
    (c : ℕ) (ids : List TaskId) (l : Loop)
    → fetch (record { count = suc c; waiting_task = ids }) l
      ≡ some (record { count = c; waiting_task = ids }, (l, returns))
unfolding fetch
fetch_one c ids l =
    let some_left : ltb 0 (suc c) ≡ true = ground arith in
    let left : suc c - 1 ≡ c = omega arith in rw (some_left, left) refl

pub give-none :
    (now : Time) (s : Semaphore) (l : Loop)
    → All (λ t. is_alive t l ≡ false) s.waiting_task
    → s.count + 1 < 2 ^ 32
    → give now s l ≡ some (record { count = suc s.count; waiting_task = [] }, l)
unfolding give given
give-none now s l h b =
    let popped : pop_alive l s.waiting_task ≡ (none, []) = pop_alive-none l s.waiting_task h in
    let up : (s.count + 1) % 2 ^ 32 ≡ suc s.count = omega arith in
    ap (given now s l) popped ∙ ap (λ c. some (record { count = c; waiting_task = [] }, l)) up

-- What is given while no living task waits is not lost: the next fetch takes it and goes on, with
-- the count as it was before and no dead id in the list, if the count does not wrap.
pub fetch-give :
    (now : Time) (s : Semaphore) (l : Loop)
    → All (λ t. is_alive t l ≡ false) s.waiting_task
    → s.count + 1 < 2 ^ 32
    → (give now s l >>= λ o. fetch o.0 o.1) ≡ some (record s { waiting_task = [] }, (l, returns))
unfolding give given fetch
fetch-give now s l h b =
    let popped : pop_alive l s.waiting_task ≡ (none, []) = pop_alive-none l s.waiting_task h in
    let up : (s.count + 1) % 2 ^ 32 ≡ suc s.count = omega arith in
    ap (λ p. given now s l p >>= λ o. fetch o.0 o.1) popped
    ∙ (ap (λ c. fetch (record { count = c; waiting_task = [] }) l) up ∙ fetch_one s.count [] l)

given-InSlice :
    (r : TaskId) (now : Time) (s : Semaphore) (l : Loop) (p : Option TaskId × List TaskId)
    → InSlice r l
    → Yields (given now s l p) (λ o. InSlice r o.1)
unfolding given
given-InSlice r now s l (none, ids) v =
    ((record { count = (s.count + 1) % 2 ^ 32; waiting_task = ids }, l), refl, v)
given-InSlice r now s l (some tid, ids) v =
    let (l', e, p) = Keeps.wakes-InSlice r l v now tid received in
    ((record s { waiting_task = ids }, l'), rw e refl, p)

-- Called by a running task, give succeeds: no assert fails, no pointer is null, and list and cache
-- agree afterwards. So does cancel, which leaves nobody waiting.
pub give-cancel-InSlice :
    (r : TaskId) (now : Time) (clock : ℕ → Time) (s : Semaphore) (l : Loop)
    → InSlice r l
    → Yields (give now s l) (λ o. InSlice r o.1)
      × Yields (cancel clock s l) (λ o. InSlice r o.1 × (o.0.waiting_task ≡ []))
unfolding give cancel given
give-cancel-InSlice r now clock s l v =
    let (l', e, p) = wake_each-InSlice r clock 0 nothing s.waiting_task l v in
    (
      unfold given in given-InSlice r now s l (pop_alive l s.waiting_task) v,
      ((record s { waiting_task = [] }, l'), rw e refl, (p, refl)),
    )
