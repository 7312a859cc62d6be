-- ===== src/Task/Waiting.antt =====
-- The list of waiting tasks that src/task/semaphore.cpp and src/task/signal.cpp keep, and what
-- both do with it. The code of a task that waits is cut in two at the switch: `holding` ends the
-- first part, and `leave` is the second.
pub mod Keeps
use libpeco.Base.{
  ℕ, suc, Bool, true, false, List, [], ◌∷◌, ◌++◌, Option, none, some, ◌==◌, if◌then◌else◌, ◌>>=◌,
}
use libpeco.Task.Types.{TaskId, Time, WaitingSignal, nothing, received}
use libpeco.Task.Loop.{Loop, Control}
use libpeco.Task.Api.{is_alive, wakeup, this_task, holding, holding_until}

-- Behind the switch back: the first entry of the task goes, if there is one.
unfoldable pub leave : TaskId → List TaskId → List TaskId
leave tid [] = []
leave tid (t ∷ ids) = if t == tid then ids else t ∷ leave tid ids

-- The loop that pops ids up to the first one that is alive.
unfoldable pub pop_alive : Loop → List TaskId → Option TaskId × List TaskId
pop_alive l [] = (none, [])
pop_alive l (tid ∷ ids) = if is_alive tid l then (some tid, ids) else pop_alive l ids

-- push_back and holding.
unfoldable pub wait_in : List TaskId → Loop → Option (List TaskId × (Loop × Control))
wait_in ids l = do (l', c) ← holding (this_task l) l; some (ids ++ this_task l ∷ [], (l', c))

unfoldable pub wait_in_until :
    Time → ℕ → List TaskId → Loop → Option (List TaskId × (Loop × Control))
wait_in_until now timedout ids l = do
  (l', c) ← holding_until now timedout (this_task l) l
  some (ids ++ this_task l ∷ [], (l', c))

-- `cancel`: every waiting task is woken with no signal; the clock is read once for each.
unfoldable pub wake_each : (ℕ → Time) → ℕ → WaitingSignal → List TaskId → Loop → Option Loop
wake_each clock k g [] l = some l
wake_each clock k g (tid ∷ ids) l = wakeup (clock k) tid g l >>= wake_each clock (suc k) g ids
