-- ===== src/Task/Cache.antt =====
-- get_task_cache of src/task/impl/basictask.cpp: the tasks of this thread by their ids, as a list.
pub mod Laws
use libpeco.Base.{ℕ, suc, ◌+◌, Bool, List, [], ◌∷◌, Option, none, some, ◌==◌, if◌then◌else◌, length}
use libpeco.Task.Types.{TaskId, Task, invalidate_task_id}

-- The task object with an id.
unfoldable pub find_task : TaskId → List Task → Option Task
find_task tid [] = none
find_task tid (t ∷ l) = if t.tid == tid then some t else find_task tid l

-- basic_task::fetch
unfoldable pub fetch_task : TaskId → List Task → Option Task
fetch_task tid l = if tid == invalidate_task_id then none else find_task tid l

-- `get_task_cache()[tid] = ptr`
unfoldable pub put_task : Task → List Task → List Task
put_task t [] = t ∷ []
put_task t (u ∷ l) = if u.tid == t.tid then t ∷ l else u ∷ put_task t l

-- A write through a pointer to the task.
unfoldable pub update_task : TaskId → (Task → Task) → List Task → List Task
update_task tid f [] = []
update_task tid f (t ∷ l) = (if t.tid == tid then f t else t) ∷ update_task tid f l

-- destroy_task
unfoldable pub remove_task : TaskId → List Task → List Task
remove_task tid [] = []
remove_task tid (t ∷ l) = if t.tid == tid then remove_task tid l else t ∷ remove_task tid l
