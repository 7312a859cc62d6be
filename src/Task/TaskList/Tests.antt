-- ===== src/Task/TaskList/Tests.antt =====
-- The timed list at concrete tasks.
use libpeco.Base.{
  ℕ, suc, ◌+◌, ◌<◌, ◌⊎◌, List, length, true, false, [], ◌∷◌, some, none, ◌≡◌, refl, arith, inl, inr,
}
use libpeco.Task.Types.{TaskId, Time, Task, TaskStatus, nothing, event_read, event_write}
use libpeco.Task.TaskList.{
  Entry, TaskList, less, map_assign, insert, replace_time, fetch, nearest_time, has, size,
}
use libpeco.Task.TaskList.Order.{IsListed, time_of, IsOrdered, operations-IsOrdered, fetch-nearest}
use libpeco.Task.TaskList.Insert.{insert-IsFresh}
use libpeco.Task.TaskList.Replace.{replace_time-insert}
use libpeco.Task.TaskList.Collision.{items, insert_same_time}

abbrev task_at : TaskId → Time → Task
task_at tid time = record {
  tid = tid;
  worker = 0;
  atexit = none;
  status = TaskStatus.paused;
  cancelled = false;
  signal = nothing;
  repeat_count = 1;
  next_fire_time = time;
  interval = 0;
  name = [];
  arg = 0;
  flags = [];
  parent_tid = 0;
}

abbrev entry : TaskId → Time → ℕ → Entry ℕ
entry tid time w = record { item = record { tid = tid; next_fire_time = time }; on_time = w }

-- Task 1 fires at 10, task 2 at 20, which also waits to read fd 5.
abbrev two_tasks : TaskList ℕ
two_tasks = record {
  ordered_time_map = entry 1 10 0 ∷ entry 2 20 7 ∷ [];
  fd_cache_map = record { fd = 5; event_type = event_read; tid = 2 } ∷ [];
}

inserted_between :
    items (insert (some (task_at 3 15)) 4 6 event_write two_tasks).ordered_time_map
    ≡ items (entry 1 10 0 ∷ entry 3 15 4 ∷ entry 2 20 7 ∷ [])
unfolding insert map_assign less
inserted_between = refl

lost_task :
    items (insert (some (task_at 3 20)) 4 6 event_write two_tasks).ordered_time_map
    ≡ items two_tasks.ordered_time_map
unfolding insert map_assign less
lost_task = refl

operations-IsOrdered_example :
    IsOrdered (insert (some (task_at 3 15)) 4 6 event_write two_tasks).ordered_time_map
operations-IsOrdered_example =
    (operations-IsOrdered two_tasks (some (task_at 3 15)) (task_at 1 10) 4 6 event_write 30
      (λ tid. none) (omega arith)).0

fetch-nearest_example :
    (e : Entry ℕ) × (rest : List (Entry ℕ)) × IsListed e two_tasks.ordered_time_map
    × (nearest_time two_tasks ≡ some (time_of e))
    × (fetch two_tasks ≡ some (e.item.tid, e.on_time, record two_tasks { ordered_time_map = rest }))
    × ((x : Entry ℕ)
        → IsListed x two_tasks.ordered_time_map
        → (x ≡ e) ⊎ (IsListed x rest × (time_of e < time_of x)))
    × ((x : Entry ℕ) → IsListed x rest → IsListed x two_tasks.ordered_time_map)
    × (size two_tasks ≡ suc (length rest))
fetch-nearest_example = fetch-nearest two_tasks (λ e. cc) (omega arith)

insert-IsFresh_example :
    size (insert (some (task_at 3 15)) 4 6 event_write two_tasks) ≡ size two_tasks + 1
insert-IsFresh_example =
    (insert-IsFresh (task_at 3 15) 4 6 event_write two_tasks (omega arith) (omega arith)).7

replace_time-insert_example :
    replace_time (task_at 3 15) 30 (insert (some (task_at 3 15)) 4 6 event_write two_tasks)
    ≡ (insert (some (task_at 3 30)) 4 6 event_write two_tasks, 30)
replace_time-insert_example =
    replace_time-insert (task_at 3 15) 4 6 event_write 30 two_tasks (omega arith) (omega arith)

insert_same_time_example :
    has (task_at 3 20) (insert (some (task_at 3 20)) 4 6 event_write two_tasks) ≡ true
insert_same_time_example =
    (insert_same_time (task_at 3 20) 4 6 event_write two_tasks (omega arith) (omega arith)
      (inr (inl refl))).2
