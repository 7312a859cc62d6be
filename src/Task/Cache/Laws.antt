-- ===== src/Task/Cache/Laws.antt =====
-- Looking up a task after a write to the cache.
use libpeco.Base.{List, [], ◌∷◌, none, some, ◌≡◌, ◌≢◌, refl, arith, ◌==◌, if◌then◌else◌}
use libpeco.Task.Types.{TaskId, Task, invalidate_task_id}
use libpeco.Task.Cache.{find_task, fetch_task, put_task, update_task, remove_task}

pub find_task-tid :
    (tid : TaskId) (l : List Task) (t : Task) → find_task tid l ≡ some t → t.tid ≡ tid
unfolding find_task
find_task-tid tid [] t h = absurd (cc)
find_task-tid tid (u ∷ l) t h = ground (arith, find_task-tid tid l t)

pub find_task-update_task :
    (tid : TaskId) (a : TaskId) (f : Task → Task) (l : List Task)
    → ((t : Task) → (f t).tid ≡ t.tid)
    → find_task a (update_task tid f l)
      ≡ elim (find_task a l) [ none ↦ none | some t ↦ some (if tid == a then f t else t) ]
unfolding find_task update_task
find_task-update_task tid a f [] h = refl
find_task-update_task tid a f (t ∷ l) h = ground (arith, h t, find_task-update_task tid a f l h)

pub find_task-put_task :
    (t : Task) (a : TaskId) (l : List Task)
    → find_task a (put_task t l) ≡ (if t.tid == a then some t else find_task a l)
unfolding find_task put_task
find_task-put_task t a [] = refl
find_task-put_task t a (u ∷ l) = ground (arith, find_task-put_task t a l)

pub find_task-remove_task :
    (tid a : TaskId) (l : List Task)
    → find_task a (remove_task tid l) ≡ (if tid == a then none else find_task a l)
unfolding find_task remove_task
find_task-remove_task tid a [] = ground arith
find_task-remove_task tid a (u ∷ l) = ground (arith, find_task-remove_task tid a l)

-- A task that basic_task::fetch returns is the object with that id, which is not -1.
pub fetch_task-some :
    (tid : TaskId) (l : List Task) (t : Task)
    → fetch_task tid l ≡ some t
    → (find_task tid l ≡ some t) × (tid ≢ invalidate_task_id)
unfolding fetch_task
fetch_task-some tid l t h = ground arith
