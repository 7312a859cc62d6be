-- ===== src/Task/Loop.antt =====
-- src/task/impl/loopimpl.hxx and loopimpl.cpp: the loop of one thread, with the globals of
-- basictask.cpp that it shares (task cache, running task). Every call takes the time that the
-- clock shows during it. `none` stands for a failed assert or a null pointer that is dereferenced.
pub mod Invariant
pub mod Calls
pub mod Start
use libpeco.Base.{
  ℕ, suc, ◌+◌, ◌-◌, Bool, true, false, not, ◌&&◌, ◌||◌, List, [], ◌∷◌, ◌++◌, Option, none, some,
  leb, ◌==◌, if◌then◌else◌, ◌>>=◌, ◌>>◌, guard,
}
use libpeco.Task.Types.{
  TaskId, Time, Fd, Task, TaskStatus, WaitingSignal, received, nothing, broken, EventType,
  event_read, event_write, status_eq, no_fd,
}
use libpeco.Task.TaskList.{TaskList}
use libpeco.Task.TaskList
use libpeco.Task.Cache.{find_task, fetch_task, put_task, update_task, remove_task}

-- The closures that the loop binds to a timed task, with the task they capture.
pub data Handler : Type 0 where
  no_handler : Handler
  read_timedout write_timedout : Fd → TaskId → Handler

-- The calls that the loop makes on loopcore, in order.
pub data CoreCall : Type 0 where
  add_read_event del_read_event add_write_event del_write_event : Fd → CoreCall
  stop_core : CoreCall

pub record Loop : Type 0 where
  pub cache : List Task
  -- Tasks out of the cache that a closure may still point to.
  pub released : List Task
  pub running_task : Option TaskId
  pub timed_list : TaskList Handler
  pub is_running : Bool
  pub exit_code : ℕ
  pub core_calls : List CoreCall

-- Whether a call came back, or switched to the main context.
pub data Control : Type 0 where
  returns swaps : Control

abbrev pub Outcome : Type 0
Outcome = Option (Loop × Control)

-- The object behind a pointer.
unfoldable pub deref : TaskId → Loop → Option Task
deref tid l = elim (find_task tid l.cache) [ none ↦ find_task tid l.released | some t ↦ some t ]

unfoldable pub modify : TaskId → (Task → Task) → Loop → Loop
modify tid f l = record l {
  cache = update_task tid f l.cache;
  released = update_task tid f l.released;
}

unfoldable pub core_call : CoreCall → Loop → Loop
core_call c l = record l { core_calls = l.core_calls ++ c ∷ [] }

-- timed_list_.insert of a task that the caller points to.
unfoldable pub insert_timed : TaskId → Handler → Fd → EventType → Loop → Option Loop
insert_timed tid w fd ev l = do
  t ← deref tid l
  some (record l { timed_list = TaskList.insert (some t) w fd ev l.timed_list })

-- timed_list_.replace_time, which also writes the time to the task.
unfoldable pub replace_timed : TaskId → Time → Loop → Option Loop
replace_timed tid time l = do
  t ← deref tid l
  let (m, now) = TaskList.replace_time t time l.timed_list
  some (modify tid (λ u. record u { next_fire_time = now }) (record l { timed_list = m }))

unfoldable pub add_task : Option TaskId → Loop → Option Loop
add_task none l = some l
add_task (some tid) l = do
  t ← deref tid l
  guard (not (status_eq t.status TaskStatus.stopped))
  insert_timed tid no_handler no_fd event_read
      (modify tid (λ u. record u { status = TaskStatus.paused }) l)

-- `ptrt->task_id() == running_task()->task_id()`
unfoldable pub is_current : TaskId → Loop → Bool
is_current tid l = elim l.running_task [ none ↦ false | some r ↦ tid == r ]

pub yield_task : Time → Option TaskId → Loop → Outcome
yield_task now none l = some (l, returns)
yield_task now (some tid) l = do
  guard (is_current tid l)
  l' ←
      insert_timed tid no_handler no_fd event_read
        (modify tid (λ u. record u { next_fire_time = now; status = TaskStatus.paused }) l)
  some (l', swaps)

unfoldable pub hold_task : Option TaskId → Loop → Outcome
hold_task none l = some (l, returns)
hold_task (some tid) l = do
  guard (is_current tid l)
  t ← deref tid l
  if t.cancelled
      then some (modify tid (λ u. record u { signal = broken }) l, returns)
      else some
          (modify tid (λ u. record u { signal = nothing; status = TaskStatus.paused }) l, swaps)

unfoldable pub hold_task_for : Time → ℕ → Option TaskId → Loop → Outcome
hold_task_for now timedout none l = some (l, returns)
hold_task_for now timedout (some tid) l = do
  guard (is_current tid l)
  t ← deref tid l
  let waiting = λ (u : Task). record u {
    signal = nothing;
    next_fire_time = now + timedout;
    status = TaskStatus.paused;
  }
  if t.cancelled then some (modify tid (λ u. record u { signal = broken }) l, returns) else do
    l' ← insert_timed tid no_handler no_fd event_read (modify tid waiting l)
    some (l', swaps)

unfoldable pub wakeup_task : Time → Option TaskId → WaitingSignal → Loop → Option Loop
wakeup_task now none s l = some l
wakeup_task now (some tid) s l = do
  guard (not (is_current tid l))
  let l' = modify tid (λ u. record u { signal = s }) l
  t ← deref tid l'
  if TaskList.has t l'.timed_list
      then replace_timed tid now l'
      else insert_timed tid no_handler no_fd event_read l'

wait_for :
    (TaskId → Handler) → EventType → CoreCall → Time → Fd → Option TaskId → ℕ → Loop → Outcome
wait_for handler ev call now fd none timedout l = some (l, returns)
wait_for handler ev call now fd (some tid) timedout l = do
  t ← deref tid l
  let waiting = λ (u : Task). record u {
    signal = nothing;
    status = TaskStatus.paused;
    next_fire_time = now + timedout;
  }
  if t.cancelled then some (modify tid (λ u. record u { signal = broken }) l, returns) else do
    l' ← insert_timed tid (handler tid) fd ev (modify tid waiting l)
    some (core_call call l', swaps)

pub wait_for_reading : Time → Fd → Option TaskId → ℕ → Loop → Outcome
unfolding wait_for
wait_for_reading now fd = wait_for (read_timedout fd) event_read (add_read_event fd) now fd

pub wait_for_writing : Time → Fd → Option TaskId → ℕ → Loop → Outcome
unfolding wait_for
wait_for_writing now fd = wait_for (write_timedout fd) event_write (add_write_event fd) now fd

unfoldable pub cancel : Time → Option TaskId → Loop → Option Loop
cancel now none l = some l
cancel now (some tid) l = do
  t ← deref tid l
  let l' = modify tid (λ u. record u { cancelled = true }) l
  if t.cancelled
      then some l
      else if is_current tid l
      then some l'
      else if TaskList.has t l.timed_list
      then replace_timed tid now l'
      else wakeup_task now (some tid) broken l'

unfoldable pub exit : ℕ → Loop → Loop
exit code l = core_call stop_core (record l { exit_code = code; is_running = false })
