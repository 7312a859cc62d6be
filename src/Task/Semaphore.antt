-- ===== src/Task/Semaphore.antt =====
-- The class semaphore of src/task/semaphore.cpp; its count is 32 bits wide.
pub mod Laws
mod Tests
use libpeco.Base.{
  ℕ, ◌+◌, ◌-◌, ◌^◌, ◌%◌, Bool, true, false, List, [], Option, none, some, ltb, if◌then◌else◌, ◌>>=◌,
}
use libpeco.Task.Types.{TaskId, Time, WaitingSignal, nothing, received}
use libpeco.Task.Loop.{Loop, Control, returns}
use libpeco.Task.Api.{wakeup}
use libpeco.Task.Waiting.{leave, pop_alive, wait_in, wait_in_until, wake_each}

pub record Semaphore : Type 0 where
  pub count : ℕ
  pub waiting_task : List TaskId

pub semaphore : ℕ → Semaphore
semaphore init_count = record { count = init_count; waiting_task = [] }

-- fetch up to its switch, or to its end if the count is not 0.
pub fetch : Semaphore → Loop → Option (Semaphore × (Loop × Control))
fetch s l =
    if ltb 0 s.count
    then some (record s { count = s.count - 1 }, (l, returns))
    else do (ids, r) ← wait_in s.waiting_task l; some (record s { waiting_task = ids }, r)

pub fetch_until : Time → ℕ → Semaphore → Loop → Option (Semaphore × (Loop × Control))
fetch_until now timedout s l =
    if ltb 0 s.count then some (record s { count = s.count - 1 }, (l, returns)) else do
      (ids, r) ← wait_in_until now timedout s.waiting_task l
      some (record s { waiting_task = ids }, r)

-- The end of fetch and fetch_until, once the task has waited.
pub fetched : TaskId → Semaphore → Semaphore
fetched tid s = record s { waiting_task = leave tid s.waiting_task }

-- give, once the dead ids are popped.
given : Time → Semaphore → Loop → Option TaskId × List TaskId → Option (Semaphore × Loop)
given now s l (none, ids) = some (record { count = (s.count + 1) % 2 ^ 32; waiting_task = ids }, l)
given now s l (some tid, ids) = do
  l' ← wakeup now tid received l
  some (record s { waiting_task = ids }, l')

pub give : Time → Semaphore → Loop → Option (Semaphore × Loop)
unfolding given
give now s l = given now s l (pop_alive l s.waiting_task)

-- cancel, which the destructor calls as well.
pub cancel : (ℕ → Time) → Semaphore → Loop → Option (Semaphore × Loop)
cancel clock s l = do
  l' ← wake_each clock 0 nothing s.waiting_task l
  some (record s { waiting_task = [] }, l')
