-- ===== src/Task/Accessors/Tests.antt =====
-- Reads and writes at a concrete loop.
use libpeco.Base.{[], ◌∷◌, some, ◌≡◌, refl}
use libpeco.Task.Types.{Task, TaskStatus}
use libpeco.Task.Loop.{Loop}
use libpeco.Task.Cache.{fetch_task, find_task}
use libpeco.Task.Samples.{task_at, running_16}

-- A task with its 16 flags.
abbrev flagged : Task
flagged = record (task_at 64 TaskStatus.paused 5) {
  flags = 0 ∷ 0 ∷ 0 ∷ 0 ∷ 0 ∷ 0 ∷ 0 ∷ 0 ∷ 0 ∷ 0 ∷ 0 ∷ 0 ∷ 0 ∷ 0 ∷ 0 ∷ 0 ∷ [];
}

abbrev with_flags : Loop
with_flags = record running_16 { cache = flagged ∷ [] }

found_64 : fetch_task 64 with_flags.cache ≡ some flagged
unfolding fetch_task find_task
found_64 = refl
