-- ===== src/Task/Loop/Calls.antt =====
-- Each call of the loop keeps the agreement of timed list and cache, and its asserts and its
-- dereferences do not fail, when a running task makes it on a cached task.
use libpeco.Base.{
  ℕ, ◌+◌, true, false, some, ◌≡◌, ◌≢◌, refl, sym, ◌∙◌, arith, Bool-cases, inl, inr, Yields,
  Yields_if, ==_self,
}
use libpeco.Task.Types.{
  TaskId, Time, Fd, Task, TaskStatus, WaitingSignal, nothing, broken, EventType, event_read,
  event_write, no_fd,
}
use libpeco.Task.TaskList
use libpeco.Task.TaskList.Items.{Unlisted}
use libpeco.Task.Cache.{fetch_task}
use libpeco.Task.Loop.{
  Loop, Handler, no_handler, read_timedout, write_timedout, CoreCall, add_read_event,
  add_write_event, Control, returns, swaps, modify, core_call, insert_timed, is_current, yield_task,
  hold_task, hold_task_for, wakeup_task, wait_for, wait_for_reading, wait_for_writing, cancel,
}
use libpeco.Task.Loop.Invariant.{
  Listed, IsCached, Frame, Frame-refl, Frame-trans, Frame-modify, deref_cached, modified,
  modify-Listed, schedule, replace_timed-Listed, not_has-Unlisted, insert_timed_lem, scheduled,
  scheduled-Listed,
}

-- While the code of task `r` runs: it is cached, and stands nowhere in the timed list.
pub record InSlice (r : TaskId) (l : Loop) : Type 0 where
  pub listed : Listed l
  pub current : l.running_task ≡ some r
  pub cached : IsCached r l
  pub unlisted : Unlisted r l.timed_list.ordered_time_map

-- Once task `r` has switched back to the main context by a call of its own.
pub record Swapped (r : TaskId) (l : Loop) : Type 0 where
  pub listed : Listed l
  pub waiting : (t : Task) × (fetch_task r l.cache ≡ some t) × (t.status ≡ TaskStatus.paused)

abbrev pub After : TaskId → Loop × Control → Type 0
After r (l, returns) = InSlice r l
After r (l, swaps) = Swapped r l

pub InSlice-Frame :
    (r tid : TaskId) (l l' : Loop)
    → tid ≢ r
    → InSlice r l
    → Listed l'
    → Frame tid l l'
    → InSlice r l'
InSlice-Frame r tid l l' n s v f = record {
  listed = v;
  current = f.running ∙ s.current;
  cached = f.cached r s.cached;
  unlisted = f.unlisted r (λ e. n (sym e)) s.unlisted;
}

is_current_self : (r : TaskId) (l : Loop) → l.running_task ≡ some r → is_current r l ≡ true
unfolding is_current
is_current_self r l e = rw (e, is_current) (==_self r)

pub is_current_other :
    (r tid : TaskId) (l : Loop) → l.running_task ≡ some r → tid ≢ r → is_current tid l ≡ false
unfolding is_current
is_current_other r tid l e n = ground arith

module _ (r : TaskId) (l : Loop) (s : InSlice r l) where
  -- A write to the running task itself.
  modify-InSlice :
      (f : Task → Task)
      → ((u : Task) → (f u).tid ≡ u.tid)
      → ((u : Task) → (f u).next_fire_time ≡ u.next_fire_time)
      → InSlice r (modify r f l)
  modify-InSlice f keeps same =
      let (t, here) = s.cached in
      let frame = Frame-modify r f l t keeps here in
      record {
        listed = modify-Listed r f l t keeps here (same t) s.listed;
        current = frame.running ∙ s.current;
        cached = frame.cached r s.cached;
        unlisted = unfold modify in s.unlisted;
      }

  -- The running task puts itself into the list.
  schedule-Swapped :
      (f : Task → Task) (w : Handler) (fd : Fd) (ev : EventType)
      → ((u : Task) → (f u).tid ≡ u.tid)
      → ((u : Task) → (f u).status ≡ TaskStatus.paused)
      → Yields (insert_timed r w fd ev (modify r f l)) (Swapped r)
  schedule-Swapped f w fd ev keeps paused =
      let (t, here) = s.cached in
      (
        scheduled r f l t keeps here w fd ev,
        insert_timed_lem r w fd ev (modify r f l) (f t) (modified r f l t keeps here),
        record {
          listed = (scheduled-Listed r f l t keeps here w fd ev s.listed s.unlisted).0;
          waiting = (f t, modified r f l t keeps here, paused t);
        },
      )

  pub yield_task-After : (now : Time) → Yields (yield_task now (some r) l) (After r)
  unfolding yield_task
  yield_task-After now = rw (is_current_self r l s.current) (
      let (l', e, p) =
        schedule-Swapped (λ u. record u { next_fire_time = now; status = TaskStatus.paused })
          no_handler no_fd event_read (λ u. refl) (λ u. refl) in
      ((l', swaps), rw e, p))

  -- A cancelled task is told so, and goes on.
  told : Loop
  told = modify r (λ u. record u { signal = broken }) l

  told-InSlice : InSlice r told
  unfolding told
  told-InSlice = modify-InSlice (λ u. record u { signal = broken }) (λ u. refl) (λ u. refl)

  held-Swapped :
      Swapped r (modify r (λ u. record u { signal = nothing; status = TaskStatus.paused }) l)
  held-Swapped =
      let (t, here) = s.cached in
      let f = λ (u : Task). record u { signal = nothing; status = TaskStatus.paused } in
      record {
        listed = modify-Listed r f l t (λ u. refl) here refl s.listed;
        waiting = (f t, modified r f l t (λ u. refl) here, refl);
      }

  pub hold_task-After : Yields (hold_task (some r) l) (After r)
  unfolding hold_task told
  hold_task-After =
      let (t, here) = s.cached in
      rw (is_current_self r l s.current, deref_cached r l t here)
        (elim (Bool-cases t.cancelled) [
          | inl c ↦ ((told, returns), rw c, told-InSlice)
          | inr c ↦ (
            (modify r (λ u. record u { signal = nothing; status = TaskStatus.paused }) l, swaps),
            rw c,
            held-Swapped,
          )
        ])

  pub hold_task_for-After :
      (now : Time) (timedout : ℕ) → Yields (hold_task_for now timedout (some r) l) (After r)
  unfolding hold_task_for told
  hold_task_for-After now timedout =
      let (t, here) = s.cached in
      let waiting = λ (u : Task). record u {
        signal = nothing;
        next_fire_time = now + timedout;
        status = TaskStatus.paused;
      } in
      let (l', e, p) =
        schedule-Swapped waiting no_handler no_fd event_read (λ u. refl) (λ u. refl) in
      rw (is_current_self r l s.current, deref_cached r l t here)
        (elim (Bool-cases t.cancelled) [
          | inl c ↦ ((told, returns), rw c, told-InSlice)
          | inr c ↦ ((l', swaps), rw (c, e), p)
        ])

  wait_for-After :
      (handler : TaskId → Handler) (ev : EventType) (call : CoreCall) (now : Time) (fd : Fd)
      (timedout : ℕ)
      → Yields (wait_for handler ev call now fd (some r) timedout l) (After r)
  unfolding wait_for told
  wait_for-After handler ev call now fd timedout =
      let (t, here) = s.cached in
      let waiting = λ (u : Task). record u {
        signal = nothing;
        status = TaskStatus.paused;
        next_fire_time = now + timedout;
      } in
      let (l', e, p) = schedule-Swapped waiting (handler r) fd ev (λ u. refl) (λ u. refl) in
      rw (deref_cached r l t here) (elim (Bool-cases t.cancelled) [
        | inl c ↦ ((told, returns), rw c, told-InSlice)
        | inr c ↦ (
          (core_call call l', swaps),
          rw (c, e),
          unfold core_call in
              record {
                listed = record { ordered = p.listed.ordered; known = p.listed.known };
                waiting = p.waiting;
              },
        )
      ])

  pub wait_for_reading-After :
      (now : Time) (fd : Fd) (timedout : ℕ)
      → Yields (wait_for_reading now fd (some r) timedout l) (After r)
  unfolding wait_for_reading
  wait_for_reading-After now fd =
      wait_for-After (read_timedout fd) event_read (add_read_event fd) now fd

  pub wait_for_writing-After :
      (now : Time) (fd : Fd) (timedout : ℕ)
      → Yields (wait_for_writing now fd (some r) timedout l) (After r)
  unfolding wait_for_writing
  wait_for_writing-After now fd =
      wait_for-After (write_timedout fd) event_write (add_write_event fd) now fd

-- A call on a cached task that is not the running one.
module _ (tid : TaskId) (l : Loop) (v : Listed l) (c : IsCached tid l)
    (other : is_current tid l ≡ false) where
  pub wakeup_task-Listed :
      (now : Time) (g : WaitingSignal)
      → Yields (wakeup_task now (some tid) g l) (λ l'. Listed l' × Frame tid l l')
  unfolding wakeup_task
  wakeup_task-Listed now g =
      let (t, here) = c in
      let f = λ (u : Task). record u { signal = g } in
      let l1 = modify tid f l in
      let here1 = modified tid f l t (λ u. refl) here in
      let v1 = modify-Listed tid f l t (λ u. refl) here refl v in
      let frame1 = Frame-modify tid f l t (λ u. refl) here in
      rw (other, deref_cached tid l1 (f t) here1)
        (elim (Bool-cases (TaskList.has (f t) l1.timed_list)) [
          | inl h ↦ rw h (
              let (l2, e, (v2, frame2)) = replace_timed-Listed tid l1 (f t) here1 v1 now in
              (l2, e, (v2, Frame-trans tid l l1 l2 frame1 frame2)))
          | inr h ↦ rw h (
              schedule tid f l t (λ u. refl) here no_handler no_fd event_read v
                (unfold modify in not_has-Unlisted tid l1 (f t) here1 v1 h))
        ])

module _ (tid : TaskId) (l : Loop) (v : Listed l) (c : IsCached tid l)
    (other : is_current tid l ≡ false) where
  pub cancel-Listed :
      (now : Time) → Yields (cancel now (some tid) l) (λ l'. Listed l' × Frame tid l l')
  unfolding cancel
  cancel-Listed now =
      let (t, here) = c in
      let f = λ (u : Task). record u { cancelled = true } in
      let l1 = modify tid f l in
      let here1 = modified tid f l t (λ u. refl) here in
      let v1 = modify-Listed tid f l t (λ u. refl) here refl v in
      let frame1 = Frame-modify tid f l t (λ u. refl) here in
      rw (deref_cached tid l t here, other)
        (Yields_if _ t.cancelled _ _ (λ _. (l, refl, (v, Frame-refl tid l)))
          λ _.
            Yields_if _ (TaskList.has t l.timed_list) _ _
              (λ _.
                let (l2, e, (v2, frame2)) = replace_timed-Listed tid l1 (f t) here1 v1 now in
                (l2, e, (v2, Frame-trans tid l l1 l2 frame1 frame2)))
              (λ _.
                let (l2, e, (v2, frame2)) =
                  wakeup_task-Listed tid l1 v1 (f t, here1) (unfold modify is_current in other) now
                    broken in
                (l2, e, (v2, Frame-trans tid l l1 l2 frame1 frame2))))

-- A task may cancel itself.
pub cancel_self-InSlice :
    (r : TaskId) (l : Loop) (now : Time) → InSlice r l → Yields (cancel now (some r) l) (InSlice r)
unfolding cancel
cancel_self-InSlice r l now s =
    let (t, here) = s.cached in
    let f = λ (u : Task). record u { cancelled = true } in
    rw (deref_cached r l t here, is_current_self r l s.current)
      (elim (Bool-cases t.cancelled) [
        | inl a ↦ (l, rw a, s)
        | inr a ↦ (modify r f l, rw a, modify-InSlice r l s f (λ u. refl) (λ u. refl))
      ])
