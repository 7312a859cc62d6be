-- ===== src/Task/Signal.antt =====
-- The class signal of src/task/signal.cpp: its only state is the list of waiting tasks.
pub mod Laws
mod Tests
use libpeco.Base.{
  ℕ, suc, Bool, true, false, List, [], ◌∷◌, Option, none, some, if◌then◌else◌, ◌>>=◌,
}
use libpeco.Task.Types.{TaskId, Time, WaitingSignal, nothing, received}
use libpeco.Task.Loop.{Loop, Control}
use libpeco.Task.Api.{is_alive, wakeup}
use libpeco.Task.Waiting.{leave, pop_alive, wait_in, wait_in_until, wake_each}

abbrev pub Signal : Type 0
Signal = List TaskId

-- wait and wait_until up to the switch, and their end.
pub wait : Signal → Loop → Option (Signal × (Loop × Control))
wait s l = wait_in s l

pub wait_until : Time → ℕ → Signal → Loop → Option (Signal × (Loop × Control))
wait_until now timedout s l = wait_in_until now timedout s l

pub waited : TaskId → Signal → Signal
waited tid s = leave tid s

-- trigger_one, once the dead ids are popped.
triggered : Time → Loop → Option TaskId × List TaskId → Option (Signal × Loop)
triggered now l (none, ids) = some (ids, l)
triggered now l (some tid, ids) = do l' ← wakeup now tid received l; some (ids, l')

pub trigger_one : Time → Signal → Loop → Option (Signal × Loop)
unfolding triggered
trigger_one now s l = triggered now l (pop_alive l s)

-- trigger_all; whether an id is alive is asked in the loop as it is by then.
trigger_each : (ℕ → Time) → ℕ → List TaskId → Loop → Option Loop
trigger_each clock k [] l = some l
trigger_each clock k (tid ∷ ids) l =
    if is_alive tid l
    then wakeup (clock k) tid received l >>= trigger_each clock (suc k) ids
    else trigger_each clock (suc k) ids l

pub trigger_all : (ℕ → Time) → Signal → Loop → Option (Signal × Loop)
unfolding trigger_each
trigger_all clock s l = do l' ← trigger_each clock 0 s l; some ([], l')

pub cancel : (ℕ → Time) → Signal → Loop → Option (Signal × Loop)
cancel clock s l = do l' ← wake_each clock 0 nothing s l; some ([], l')
