-- ===== src/Task/Api/Keeps.antt =====
-- What the calls of a task's code leave behind, up to its next switch.
use libpeco.Base.{
  ℕ, ◌-◌, ◌||◌, leb, none, some, ◌≡◌, ◌≢◌, ◌⊎◌, refl, sym, arith, ◌==◌, Bool-cases, inl, inr,
  Option-cases, ==→eq, Yields, Bytes,
}
use libpeco.Task.Types.{
  TaskId, Time, Fd, Task, WaitingSignal, EventType, event_read, event_write, invalidate_task_id,
}
use libpeco.Task.BasicTask
use libpeco.Task.Cache.{find_task, fetch_task}
use libpeco.Task.Cache.Laws.{fetch_task-some}
use libpeco.Task.Loop.{Loop, returns, hold_task, hold_task_for, wakeup_task}
use libpeco.Task.Loop.Invariant.{IsCached, deref_cached}
use libpeco.Task.Loop.Calls.{
  InSlice, After, InSlice-Frame, yield_task-After, hold_task-After, hold_task_for-After,
  wait_for_reading-After, wait_for_writing-After, wakeup_task-Listed, cancel-Listed,
  cancel_self-InSlice, is_current_other,
}
use libpeco.Task.Loop.Start.{add_task-Listed}
use libpeco.Task.Api.{
  Memory, this_task, pointer, yield, holding, holding_until, wakeup, cancel_task, wait_fd_for_event,
  sleep, sleep_on, start_task,
}

-- The allocator returns an address at which no cached task lives, and never -1.
pub record IsAllocator (mem : Memory) : Type 0 where
  pub valid : (l : Loop) → mem.address l ≢ invalidate_task_id
  pub fresh : (l : Loop) → find_task (mem.address l) l.cache ≡ none

pointer_cached :
    (tid : TaskId) (l : Loop) (t : Task)
    → fetch_task tid l.cache ≡ some t
    → pointer tid l ≡ some tid
unfolding pointer
pointer_cached tid l t h = rw (h, pointer)

pointer-cases :
    (tid : TaskId) (l : Loop)
    → (pointer tid l ≡ none) ⊎ ((pointer tid l ≡ some tid) × IsCached tid l)
unfolding pointer
pointer-cases tid l = elim (Option-cases (fetch_task tid l.cache)) [
  | inl e ↦ inl (rw (e, pointer))
  | inr (t, e) ↦ inr (rw (e, pointer), (t, e))
]

module _ (r : TaskId) (l : Loop) (s : InSlice r l) where
  pub this_task_current : this_task l ≡ r
  unfolding this_task
  this_task_current = rw (s.current, this_task)

  this_pointer : pointer r l ≡ some r
  this_pointer = pointer_cached r l s.cached.0 s.cached.1

  pub yields-After : (now : Time) (tid : TaskId) → Yields (yield now tid l) (After r)
  unfolding yield
  yields-After now tid = elim (Bool-cases (r == tid)) [
    | inl e ↦ rw (s.current, yield, e) (yield_task-After r l s now)
    | inr e ↦ rw (s.current, yield, e) ((l, returns), refl, s)
  ]

  pub holds-After : Yields (holding r l) (After r)
  unfolding holding
  holds-After = rw (this_pointer, holding) (hold_task-After r l s)

  pub holds_for-After : (now : Time) (d : ℕ) → Yields (holding_until now d r l) (After r)
  unfolding holding_until
  holds_for-After now d = rw (this_pointer, holding_until) (hold_task_for-After r l s now d)

  pub sleeps-After : (now : Time) (d : ℕ) → Yields (sleep now d r l) (After r)
  unfolding sleep
  sleeps-After now d = rw (this_pointer, sleep) (hold_task_for-After r l s now d)

  pub sleeps_on-After : (checked now e : Time) → Yields (sleep_on checked now e r l) (After r)
  unfolding sleep_on
  sleeps_on-After checked now e =
      let (t, here) = s.cached in
      rw (deref_cached r l t here) (elim (Bool-cases (t.cancelled || leb e checked)) [
        | inl h ↦ ((l, returns), rw h refl, s)
        | inr h ↦ rw h (hold_task_for-After r l s now (e - checked))
      ])

  pub waits_for-After :
      (now : Time) (fd : Fd) (ev : EventType) (d : ℕ)
      → Yields (wait_fd_for_event now fd ev d r l) (After r)
  unfolding wait_fd_for_event
  waits_for-After now fd event_read d =
      rw (this_pointer, wait_fd_for_event) (wait_for_reading-After r l s now fd d)
  waits_for-After now fd event_write d =
      rw (this_pointer, wait_fd_for_event) (wait_for_writing-After r l s now fd d)

  -- On a task that is gone `holding`, `holding_until` and `sleep` return, and on another task in the
  -- cache their assert fails.
  pub held_elsewhere :
      (now : Time) (d : ℕ) (tid : TaskId)
      → tid ≢ r
      → ((holding tid l ≡ some (l, returns))
          × (holding_until now d tid l ≡ some (l, returns))
          × (sleep now d tid l ≡ some (l, returns)))
        ⊎ (IsCached tid l
            × (holding tid l ≡ none)
            × (holding_until now d tid l ≡ none)
            × (sleep now d tid l ≡ none))
  unfolding holding holding_until sleep hold_task hold_task_for
  held_elsewhere now d tid n = elim (pointer-cases tid l) [
    | inl p ↦ inl (rw (p, holding) refl, rw (p, holding_until) refl, rw (p, sleep) refl)
    | inr (p, c) ↦
        let other = is_current_other r tid l s.current n in
        inr (
          c,
          rw (p, holding, hold_task, other) refl,
          rw (p, holding_until, hold_task_for, other) refl,
          rw (p, sleep, hold_task_for, other) refl,
        )
  ]

  pub wakes-InSlice :
      (now : Time) (tid : TaskId) (g : WaitingSignal) → Yields (wakeup now tid g l) (InSlice r)
  unfolding wakeup wakeup_task
  wakes-InSlice now tid g = elim (Bool-cases (r == tid)) [
    | inl e ↦ rw (s.current, wakeup, e) (l, refl, s)
    | inr e ↦ elim (pointer-cases tid l) [
      | inl p ↦ rw (s.current, wakeup, e, p) (l, refl, s)
      | inr (p, c) ↦
          let n : tid ≢ r = ground arith in
          let (l', done, (v, frame)) =
            wakeup_task-Listed tid l s.listed c (is_current_other r tid l s.current n) now g in
          rw (s.current, wakeup, e, p)
            (l', unfold wakeup_task in done, InSlice-Frame r tid l l' n s v frame)
    ]
  ]

  pub cancels-InSlice : (now : Time) (tid : TaskId) → Yields (cancel_task now tid l) (InSlice r)
  unfolding cancel_task
  cancels-InSlice now tid = elim (pointer-cases tid l) [
    | inl p ↦ (l, rw (p, cancel_task), s)
    | inr (p, c) ↦ elim (Bool-cases (r == tid)) [
      | inl e ↦
          let (l', done, s') = cancel_self-InSlice r l now s in
          (l', rw (p, cancel_task, sym (==→eq r tid e)) done, s')
      | inr e ↦
          let n : tid ≢ r = ground arith in
          let (l', done, (v, frame)) =
            cancel-Listed tid l s.listed c (is_current_other r tid l s.current n) now in
          (l', rw (p, cancel_task) done, InSlice-Frame r tid l l' n s v frame)
    ]
  ]

  pub starts-InSlice :
      (mem : Memory) (now : Time) (worker repeat_count interval : ℕ) (name : Bytes)
      → IsAllocator mem
      → Yields (start_task mem now worker repeat_count interval name l) (InSlice r)
  unfolding start_task BasicTask.set_name BasicTask.create BasicTask.reset_task
  starts-InSlice mem now worker repeat_count interval name a =
      let t = BasicTask.set_name (some name) (
        BasicTask.create (mem.address l) (mem.left_name l) (mem.left_flags l) l.running_task worker
          repeat_count interval now) in
      let (l', done, (v, frame)) = add_task-Listed l t (a.valid l) (a.fresh l) s.listed refl in
      let n : mem.address l ≢ r = λ e.
        let gone : find_task r l.cache ≡ none = rw (sym e) (a.fresh l) in
        let found = (fetch_task-some r l.cache s.cached.0 s.cached.1).0 in ground arith in
      (l', done, InSlice-Frame r (mem.address l) l l' n s v frame)
