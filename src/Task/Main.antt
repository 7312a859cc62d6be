-- ===== src/Task/Main.antt =====
-- loopimpl::main of src/task/impl/loopimpl.cpp, with swap_to_task and destroy_task of
-- basictask.cpp. The code of a task is an argument, `slice`: what it does to the loop from the
-- switch to the task until the switch back.
pub mod Keeps
pub mod Timeout
pub mod Events
mod Tests
use libpeco.Base.{
  ℕ, suc, ◌+◌, ◌-◌, ◌*◌, Bool, true, false, not, List, [], ◌∷◌, Option, none, some, length, leb,
  ltb, ◌==◌, if◌then◌else◌, ◌>>=◌, ◌>>◌,
}
use libpeco.Task.Types.{
  TaskId, Time, Fd, Task, TaskStatus, WaitingSignal, received, nothing, broken, EventType,
  event_read, event_write, status_eq, no_fd,
}
use libpeco.Task.TaskList.{TaskList}
use libpeco.Task.TaskList
use libpeco.Task.Cache.{find_task, fetch_task, remove_task}
use libpeco.Task.BasicTask.{swap_in, swap_out}
use libpeco.Task.Loop.{
  Loop, Handler, no_handler, read_timedout, write_timedout, CoreCall, del_read_event,
  del_write_event, stop_core, deref, modify, core_call, insert_timed, cancel,
}

-- The body of a timeout handler. Both erase the fd entry of the read event: `erase` is called
-- without an event, and that is its default.
timed_out : CoreCall → Fd → TaskId → Loop → Option Loop
timed_out call fd tid l = do
  t ← deref tid l
  let l' =
      core_call call (record l { timed_list = TaskList.erase (some t) fd event_read l.timed_list })
  some (if t.cancelled then modify tid (λ u. record u { signal = broken }) l' else l')

pub run_handler : Handler → Loop → Option Loop
run_handler no_handler l = some l
run_handler (read_timedout fd tid) l = timed_out (del_read_event fd) fd tid l
run_handler (write_timedout fd tid) l = timed_out (del_write_event fd) fd tid l

-- Wakes one task in the next round with a signal, if it is still cached.
resume_with : WaitingSignal → Time → TaskId → Loop → Option Loop
resume_with s now tid l = elim (fetch_task tid l.cache) [
  | none ↦ some l
  | some t ↦
      insert_timed tid no_handler no_fd event_read
        (modify tid (λ u. record u { signal = s; next_fire_time = now }) l)
]

-- The loop over the ids; the clock is read once for each.
resume_broken : (ℕ → Time) → ℕ → List TaskId → Loop → Option Loop
resume_broken clock k [] l = some l
resume_broken clock k (tid ∷ ids) l =
    resume_with broken (clock k) tid l >>= resume_broken clock (suc k) ids

-- The error handler that main gives to loopcore.
pub on_error : (ℕ → Time) → Fd → Loop → Option Loop
unfolding resume_broken resume_with
on_error clock fd l =
    resume_broken clock 0 (TaskList.search_all fd l.timed_list)
      (record l { timed_list = TaskList.erase_fd (λ tid. fetch_task tid l.cache) fd l.timed_list })

resume_received : (ℕ → Time) → ℕ → Fd → EventType → List TaskId → Loop → Option Loop
resume_received clock k fd ev [] l = some l
resume_received clock k fd ev (tid ∷ ids) l =
    resume_with received (clock k) tid
      (record l { timed_list = TaskList.erase (fetch_task tid l.cache) fd ev l.timed_list })
    >>= resume_received clock (suc k) fd ev ids

-- The event handler that main gives to loopcore.
pub on_event : (ℕ → Time) → Fd → EventType → Loop → Option Loop
unfolding resume_received resume_with
on_event clock fd ev l = resume_received clock 0 fd ev (TaskList.search fd ev l.timed_list) l

pub swap_to_task : (Loop → Option Loop) → TaskId → Loop → Option Loop
swap_to_task slice tid l = do
  t ← deref tid l
  if status_eq t.status TaskStatus.stopped then some l else do
    l' ← slice (modify tid swap_in (record l { running_task = some tid }))
    some (modify tid swap_out (record l' { running_task = none }))

-- destroy_task: out of the cache.
unfoldable pub destroy_task : TaskId → Task → Loop → Loop
destroy_task tid t l = record l {
  cache = remove_task tid l.cache;
  released = t ∷ remove_task tid l.released;
}

-- What main does with the task once it is back, by its status.
settle_by : TaskStatus → TaskId → Task → Loop → Option Loop
settle_by TaskStatus.stopped tid t l = some (destroy_task tid t l)
settle_by TaskStatus.pending tid t l = insert_timed tid no_handler no_fd event_read l
settle_by TaskStatus.running tid t l = some l
settle_by TaskStatus.paused tid t l = some l

pub settle : TaskId → Loop → Option Loop
unfolding settle_by
settle tid l = do t ← deref tid l; settle_by t.status tid t l

-- One round of the inner loop of main; the pointer that it swaps to is null if the task is gone.
pub run_one : (Loop → Option Loop) → Loop → Option Loop
run_one slice l = do
  r ← TaskList.fetch l.timed_list
  let (tid, w, rest) = r
  l1 ← run_handler w (record l { timed_list = rest })
  t ← fetch_task tid l1.cache
  l2 ← swap_to_task slice tid l1
  settle tid l2

-- foreach over the cache, with `cancel`.
cancel_each : (ℕ → Time) → ℕ → List Task → Loop → Option Loop
cancel_each clock k [] l = some l
cancel_each clock k (t ∷ ts) l = cancel (clock k) (some t.tid) l >>= cancel_each clock (suc k) ts

pub cancel_all : (ℕ → Time) → Loop → Option Loop
unfolding cancel_each
cancel_all clock l = cancel_each clock 0 l.cache l

-- What main does next, at the test of its inner loop; `later` is its second reading of
-- the clock.
pub data Turn : Type 0 where
  ends runs cancels_all continues : Turn
  waits : ℕ → Turn

pub idle_gap : Time → Loop → Turn
idle_gap later l = elim (TaskList.nearest_time l.timed_list) [
  | none ↦ waits (1000 * 1000000)
  | some t ↦ if ltb t later then continues else waits (t - later)
]

pub next_turn : Time → Time → Loop → Turn
unfolding idle_gap
next_turn now later l =
    let other =
      if length l.cache == 0
      then ends
      else if l.is_running
      then idle_gap later l
      else cancels_all in
    elim (TaskList.nearest_time l.timed_list) [
      | none ↦ other
      | some t ↦ if leb t now then runs else other
    ]
