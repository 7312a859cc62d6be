-- ===== src/Task/BasicTask.antt =====
-- src/task/impl/basictask.cpp: one task. A method that changes the task returns the new one.
pub mod Name
pub mod Swap
mod Tests
use libpeco.Base.{
  ℕ, suc, ◌+◌, ◌-◌, ◌%◌, ◌^◌, Bool, true, false, ◌||◌, List, [], ◌∷◌, ◌++◌, Option, none, some,
  Bytes, length, take, drop, get_or, set, ltb, leb, ◌==◌, if◌then◌else◌,
}
use libpeco.Task.Types.{
  TaskId, Time, Task, TaskStatus, WaitingSignal, nothing, status_eq, invalidate_task_id,
  repeat_count_infinitive, max_flag_count, task_name_length,
}

-- reset_task: the context starts over at the worker's first line.
unfoldable pub reset_task : Task → Task
reset_task t = record t { status = TaskStatus.pending }

-- The constructor. The buffer comes from the stack cache with the bytes that its last user left:
-- `name` and `flags` are those, and only the first byte of the name is written.
unfoldable pub create :
    (tid : TaskId) (name : Bytes) (flags : List ℕ) (parent : Option TaskId)
    (worker repeat_count : ℕ) (interval : ℕ) (now : Time)
    → Task
unfolding reset_task
create tid name flags parent worker repeat_count interval now = reset_task (record {
  tid = tid;
  worker = worker;
  atexit = none;
  status = TaskStatus.pending;
  cancelled = false;
  signal = nothing;
  repeat_count = repeat_count;
  next_fire_time = now + interval;
  interval = interval;
  name = set name 0 0;
  arg = 0;
  flags = flags;
  parent_tid = elim parent [ none ↦ invalidate_task_id | some r ↦ r ];
})

-- The old exit function with the task.
unfoldable pub set_atexit : Option ℕ → Task → Option ℕ × Task
set_atexit f t = (t.atexit, record t { atexit = f })

unfoldable pub set_arg : ℕ → Task → Task
set_arg a t = record t { arg = a }

unfoldable pub set_flag : ℕ → ℕ → Task → Task
set_flag flag index t =
    if leb max_flag_count index then t else record t { flags = set t.flags index flag }

unfoldable pub get_flag : ℕ → Task → ℕ
get_flag index t = if leb max_flag_count index then 2 ^ 64 - 1 else get_or t.flags index 0

-- memcpy of the first bytes over the buffer, and a terminator if there is room for one.
unfoldable pub set_name : Option Bytes → Task → Task
set_name none t = t
set_name (some n) t =
    let cl = if ltb task_name_length (length n) then task_name_length else length n in
    let copied = take cl n ++ drop cl t.name in
    record t { name = if ltb cl task_name_length then set copied cl 0 else copied }

-- A C string ends at its first zero byte; `zero1` behind the buffer is one.
pub c_string : Bytes → Bytes
c_string [] = []
c_string (c ∷ s) = if c == 0 then [] else c ∷ c_string s

pub get_name : Task → Bytes
get_name t = c_string t.name

unfoldable pub update_interval : ℕ → Task → Task
update_interval interval t = record t { interval = interval }

-- swap_to_task up to the switch of context.
unfoldable pub swap_in : Task → Task
swap_in t = record t { status = TaskStatus.running }

-- swap_to_task behind the switch back: the status is still running only if the worker returned.
unfoldable pub swap_out : Task → Task
unfolding reset_task
swap_out t =
    if status_eq t.status TaskStatus.running
    then (if t.repeat_count == 1 || t.cancelled
        then record t { status = TaskStatus.stopped }
        else reset_task (record t {
          repeat_count =
              if t.repeat_count == repeat_count_infinitive
              then t.repeat_count
              else (t.repeat_count + 2 ^ 64 - 1) % 2 ^ 64;
          next_fire_time = t.next_fire_time + t.interval;
        }))
    else t
