-- ===== src/Task/Samples.antt =====
-- Test data: a memory that never runs out, and tasks at given times.
use libpeco.Base.{ℕ, suc, ◌+◌, ◌^◌, ◌≤◌, false, List, [], ◌∷◌, none, some, true, ◌≡◌, refl, arith}
use libpeco.Task.Loop.Calls.{InSlice}
use libpeco.Task.Types.{TaskId, Time, Task, TaskStatus, nothing}
use libpeco.Task.Cache.{find_task, fetch_task}
use libpeco.Task.Loop.{Loop}
use libpeco.Task.Api.{Memory}
use libpeco.Task.Api.Keeps.{IsAllocator}

-- An allocator that takes the address behind all others.
above : List Task → ℕ
above [] = 2 ^ 64
above (t ∷ c) = suc (t.tid + above c)

find_task-above : (k : ℕ) (c : List Task) → above c ≤ k → find_task k c ≡ none
unfolding above find_task
find_task-above k [] h = refl
find_task-above k (t ∷ c) h = ground (arith, find_task-above k c)

above-large : (c : List Task) → 2 ^ 64 ≤ above c
unfolding above
above-large [] = omega arith
above-large (t ∷ c) = omega (arith, above-large c)

pub bump : Memory
unfolding above
bump = record { address = λ (l : Loop). above l.cache; left_name = λ l. []; left_flags = λ l. [] }

pub bump-IsAllocator : IsAllocator bump
unfolding bump
bump-IsAllocator = record {
  valid = λ l e. omega (arith, above-large l.cache);
  fresh = λ l. find_task-above (above l.cache) l.cache (omega arith);
}

abbrev pub task_at : TaskId → TaskStatus → Time → Task
task_at tid st time = record {
  tid = tid;
  worker = 1;
  atexit = none;
  status = st;
  cancelled = false;
  signal = nothing;
  repeat_count = 1;
  next_fire_time = time;
  interval = 0;
  name = [];
  arg = 0;
  flags = [];
  parent_tid = 0;
}

-- Task 16 runs, and task 32 is held.
abbrev pub running_16 : Loop
running_16 = record {
  cache = task_at 16 TaskStatus.running 5 ∷ task_at 32 TaskStatus.paused 5 ∷ [];
  released = [];
  running_task = some 16;
  timed_list = record { ordered_time_map = []; fd_cache_map = [] };
  is_running = true;
  exit_code = 0;
  core_calls = [];
}

pub running_16-InSlice : InSlice 16 running_16
unfolding fetch_task find_task
running_16-InSlice = record {
  listed = record { ordered = tt; known = tt };
  current = refl;
  cached = (task_at 16 TaskStatus.running 5, refl);
  unlisted = tt;
}
