-- ===== src/Task/TaskQueue.antt =====
-- The class taskqueue of src/task/taskqueue.cpp. A worker is known by a number; the code of the
-- inner task is the round of its loop up to the call of the worker.
pub mod Laws
mod Tests
use libpeco.Base.{
  ℕ, zero, suc, if◌then◌else◌, Bool, true, false, List, [], ◌∷◌, ◌++◌, Option, none, some, ◌>>=◌,
}
use libpeco.Task.Types.{TaskId, Time}
use libpeco.Task.Loop.{Loop, Control, returns, swaps}
use libpeco.Task.Api.{cancel_task, is_cancelled, holding}
use libpeco.Task.Semaphore.{Semaphore, fetch, give}

pub record TaskQueue : Type 0 where
  pub inner_t : TaskId
  pub sem : Semaphore
  pub pending_task_list : List ℕ

unfoldable pub append : Time → ℕ → TaskQueue → Loop → Option (TaskQueue × Loop)
append now worker q l = do
  (s, l') ← give now q.sem l
  some (record q { sem = s; pending_task_list = q.pending_task_list ++ worker ∷ [] }, l')

pub insert : Time → ℕ → TaskQueue → Loop → Option (TaskQueue × Loop)
insert now worker q l = do
  (s, l') ← give now q.sem l
  some (record q { sem = s; pending_task_list = worker ∷ q.pending_task_list }, l')

-- sync of the task `tid` up to its switch. The worker that is appended calls the given one and wakes
-- the task up; it is known by a number as well.
pub sync : Time → TaskId → ℕ → TaskQueue → Loop → Option (TaskQueue × (Loop × Control))
sync now tid worker q l = do (q', l') ← append now worker q l; r ← holding tid l'; some (q', r)

-- The destructor.
pub release : Time → TaskQueue → Loop → Option Loop
release now q l = cancel_task now q.inner_t l

-- The semaphore of the loop's test, up to its switch if it has one.
unfoldable pub fetch_round : TaskQueue → Loop → Option (TaskQueue × (Loop × Control))
fetch_round q l = do (s, r) ← fetch q.sem l; some (record q { sem = s }, r)

-- Once the semaphore is fetched: the worker at the front, which the round then calls. `none` is
-- the front of an empty list.
unfoldable pub take_front : TaskQueue → Option (ℕ × TaskQueue)
take_front q = elim q.pending_task_list [
  | [] ↦ none
  | w ∷ ws ↦ some (w, record q { pending_task_list = ws })
]

-- The loop of the inner task for at most `k` rounds: the workers that it runs, up to where it ends or
-- waits. `run` is what a worker does to the loop.
unfoldable pub run_ready :
    (ℕ → Loop → Loop) → ℕ → TaskQueue → Loop → Option (List ℕ × (TaskQueue × Loop))
unfolding fetch_round take_front
run_ready run zero q l = some ([], (q, l))
run_ready run (suc k) q l = if is_cancelled q.inner_t l then some ([], (q, l)) else do
  (q', r) ← fetch_round q l
  elim r.1 [
    | swaps ↦ some ([], (q', r.0))
    | returns ↦ do
      (w, q'') ← take_front q'
      (ws, end) ← run_ready run k q'' (run w r.0)
      some (w ∷ ws, end)
  ]
