-- ===== src/Task/Accessors.antt =====
-- The calls of src/task/task.cpp that read or write one task, through its id; each returns the
-- value that the source gives for a task that is gone.
pub mod Laws
mod Tests
use libpeco.Base.{ℕ, List, [], Option, none, some, Bytes}
use libpeco.Task.Types.{TaskId, Task, invalidate_task_id}
use libpeco.Task.Cache.{fetch_task}
use libpeco.Task.BasicTask
use libpeco.Task.Loop.{Loop, modify}

-- The old exit function with the loop.
pub set_atexit : TaskId → Option ℕ → Loop → Option ℕ × Loop
set_atexit tid f l = elim (fetch_task tid l.cache) [
  | none ↦ (none, l)
  | some t ↦ ((BasicTask.set_atexit f t).0, modify tid (λ u. (BasicTask.set_atexit f u).1) l)
]

pub set_arg : TaskId → ℕ → Loop → Loop
set_arg tid a l = elim (fetch_task tid l.cache) [
  | none ↦ l
  | some t ↦ modify tid (BasicTask.set_arg a) l
]

pub get_arg : TaskId → Loop → ℕ
get_arg tid l = elim (fetch_task tid l.cache) [ none ↦ 0 | some t ↦ t.arg ]

pub set_flag : TaskId → ℕ → ℕ → Loop → Loop
set_flag tid flag index l = elim (fetch_task tid l.cache) [
  | none ↦ l
  | some t ↦ modify tid (BasicTask.set_flag flag index) l
]

pub get_flag : TaskId → ℕ → Loop → ℕ
get_flag tid index l = elim (fetch_task tid l.cache) [
  | none ↦ 0
  | some t ↦ BasicTask.get_flag index t
]

pub set_name : TaskId → Option Bytes → Loop → Loop
set_name tid n l = elim (fetch_task tid l.cache) [
  | none ↦ l
  | some t ↦ modify tid (BasicTask.set_name n) l
]

pub get_name : TaskId → Loop → Bytes
get_name tid l = elim (fetch_task tid l.cache) [ none ↦ [] | some t ↦ BasicTask.get_name t ]

pub parent_task : TaskId → Loop → TaskId
parent_task tid l = elim (fetch_task tid l.cache) [
  | none ↦ invalidate_task_id
  | some t ↦ t.parent_tid
]

pub update_interval : TaskId → ℕ → Loop → Loop
update_interval tid interval l = elim (fetch_task tid l.cache) [
  | none ↦ l
  | some t ↦ modify tid (BasicTask.update_interval interval) l
]
