-- ===== src/Task/Api.antt =====
-- src/task/task.cpp and src/task/loop.cpp: what the code of a task may call. A task object is an
-- id, and each call looks the task up in the cache first.
pub mod Keeps
pub mod Slice
mod Tests
use libpeco.Base.{
  ℕ, suc, ◌+◌, ◌-◌, Bool, true, false, ◌&&◌, ◌||◌, not, List, [], ◌∷◌, Option, none, some, Bytes,
  leb, ◌==◌, if◌then◌else◌, ◌>>=◌, ◌>>◌, Option-cases,
}
use libpeco.Task.Types.{
  TaskId, Time, Fd, Task, TaskStatus, WaitingSignal, received, nothing, broken, EventType,
  event_read, event_write, invalidate_task_id, repeat_count_infinitive, repeat_count_oneshot,
}
use libpeco.Task.Cache.{fetch_task, put_task}
use libpeco.Task.BasicTask
use libpeco.Task.Loop.{
  Loop, Control, returns, swaps, Outcome, deref, modify, add_task, yield_task, hold_task,
  hold_task_for, wakeup_task, wait_for_reading, wait_for_writing, cancel, exit,
}

-- task::this_task().task_id()
unfoldable pub this_task : Loop → TaskId
this_task l = elim l.running_task [ none ↦ invalidate_task_id | some r ↦ r ]

-- basic_task::fetch, as the pointer that the loop's calls take.
unfoldable pub pointer : TaskId → Loop → Option TaskId
pointer tid l = elim (fetch_task tid l.cache) [ none ↦ none | some t ↦ some tid ]

unfoldable pub is_alive : TaskId → Loop → Bool
is_alive tid l = elim (fetch_task tid l.cache) [ none ↦ false | some t ↦ true ]

pub status : TaskId → Loop → TaskStatus
status tid l = elim (fetch_task tid l.cache) [ none ↦ TaskStatus.stopped | some t ↦ t.status ]

pub signal : TaskId → Loop → WaitingSignal
signal tid l = elim (fetch_task tid l.cache) [ none ↦ broken | some t ↦ t.signal ]

unfoldable pub is_cancelled : TaskId → Loop → Bool
is_cancelled tid l = elim (fetch_task tid l.cache) [ none ↦ false | some t ↦ t.cancelled ]

-- What `holding` and `holding_until` return once the task runs again.
pub held_result : TaskId → Loop → Bool
held_result tid l = elim (deref tid l) [
  | none ↦ false
  | some t ↦ elim t.signal [ received ↦ true | nothing ↦ false | broken ↦ false ]
]

-- The calls of a task's code that can reach the loop. A task's code may make all but the last on the
-- id of any task. The last is what `sleep` does when the task runs again: it reads the clock, as its
-- argument says, and knows when it is to end.
pub data Action : Type 0 where
  yields holds : TaskId → Action
  holds_for sleeps : ℕ → TaskId → Action
  waits_for : Fd → EventType → ℕ → TaskId → Action
  wakes : TaskId → WaitingSignal → Action
  cancels : TaskId → Action
  runs : ℕ → Bytes → Action
  runs_loop runs_delay : ℕ → ℕ → Bytes → Action
  exits : ℕ → Action
  sleeps_on : Time → Time → Action

pub yield : Time → TaskId → Loop → Outcome
yield now tid l = elim l.running_task [
  | none ↦ yield_task now none l
  | some r ↦ if r == tid then yield_task now (some r) l else some (l, returns)
]

pub holding : TaskId → Loop → Outcome
holding tid l = elim (pointer tid l) [ none ↦ some (l, returns) | some p ↦ hold_task (some p) l ]

pub holding_until : Time → ℕ → TaskId → Loop → Outcome
holding_until now timedout tid l = elim (pointer tid l) [
  | none ↦ some (l, returns)
  | some p ↦ hold_task_for now timedout (some p) l
]

abbrev stay : Option Loop → Outcome
stay o = o >>= λ l. some (l, returns)

pub wakeup : Time → TaskId → WaitingSignal → Loop → Option Loop
wakeup now tid s l = elim l.running_task [
  | none ↦ wakeup_task now (pointer tid l) s l
  | some r ↦ if r == tid then some l else wakeup_task now (pointer tid l) s l
]

pub cancel_task : Time → TaskId → Loop → Option Loop
cancel_task now tid l = elim (pointer tid l) [ none ↦ some l | some p ↦ cancel now (some p) l ]

pub wait_fd_for_event : Time → Fd → EventType → ℕ → TaskId → Loop → Outcome
wait_fd_for_event now fd ev timedout tid l = elim (pointer tid l) [
  | none ↦ some (l, returns)
  | some p ↦ elim ev [
    | event_read ↦ wait_for_reading now fd (some p) timedout l
    | event_write ↦ wait_for_writing now fd (some p) timedout l
  ]
]

-- `sleep` up to its first switch. Where the hold returns at once the task is cancelled, which ends
-- the loop.
pub sleep : Time → ℕ → TaskId → Loop → Outcome
sleep now duration tid l = elim (pointer tid l) [
  | none ↦ some (l, returns)
  | some p ↦ hold_task_for now duration (some p) l
]

-- The rest of a round of `sleep`, and the hold of the next one.
pub sleep_on : Time → Time → Time → TaskId → Loop → Outcome
sleep_on checked now expect_end tid l = do
  t ← deref tid l
  if t.cancelled || leb expect_end checked
      then some (l, returns)
      else hold_task_for now (expect_end - checked) (some tid) l

-- What memory gives a new task: the address of its buffer, and the bytes left in it.
pub record Memory : Type 0 where
  pub address : Loop → TaskId
  pub left_name : Loop → Bytes
  pub left_flags : Loop → List ℕ

-- create_task, set_name and add_task.
pub start_task : Memory → Time → ℕ → ℕ → ℕ → Bytes → Loop → Option Loop
start_task mem now worker repeat_count interval name l =
    let t = BasicTask.set_name (some name) (
      BasicTask.create (mem.address l) (mem.left_name l) (mem.left_flags l) l.running_task worker
        repeat_count interval now) in
    add_task (some (mem.address l)) (record l { cache = put_task t l.cache })

pub run : Memory → Time → ℕ → Bytes → Loop → Option Loop
unfolding start_task
run mem now worker name = start_task mem now worker repeat_count_oneshot 0 name

pub run_loop : Memory → Time → ℕ → ℕ → Bytes → Loop → Option Loop
unfolding start_task
run_loop mem now worker interval name =
    start_task mem now worker repeat_count_infinitive interval name

pub run_delay : Memory → Time → ℕ → ℕ → Bytes → Loop → Option Loop
unfolding start_task
run_delay mem now worker delay name = start_task mem now worker repeat_count_oneshot delay name

-- One call.
pub act : Memory → Time → Action → Loop → Outcome
act mem now (yields tid) l = yield now tid l
act mem now (holds tid) l = holding tid l
act mem now (holds_for d tid) l = holding_until now d tid l
act mem now (sleeps d tid) l = sleep now d tid l
act mem now (waits_for fd ev d tid) l = wait_fd_for_event now fd ev d tid l
act mem now (wakes tid s) l = stay (wakeup now tid s l)
act mem now (cancels tid) l = stay (cancel_task now tid l)
act mem now (runs worker name) l = stay (run mem now worker name l)
act mem now (runs_loop worker interval name) l = stay (run_loop mem now worker interval name l)
act mem now (runs_delay worker delay name) l = stay (run_delay mem now worker delay name l)
act mem now (exits code) l = some (exit code l, returns)
act mem now (sleeps_on checked expect_end) l = sleep_on checked now expect_end (this_task l) l

-- The code of a task from one switch to it to the next switch back: its calls in order, up to the
-- first that switches; at the end of the list the worker has returned.
pub run_actions : Memory → List (Time × Action) → Loop → Option Loop
run_actions mem [] l = some l
run_actions mem ((now, a) ∷ rest) l =
    act mem now a l >>= λ r. elim r.1 [ swaps ↦ some r.0 | returns ↦ run_actions mem rest r.0 ]
