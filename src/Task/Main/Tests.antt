-- ===== src/Task/Main/Tests.antt =====
-- Main at a concrete loop.
use libpeco.Base.{ℕ, ◌+◌, true, [], ◌∷◌, none, some, ◌≡◌, refl, arith, Yields}
use libpeco.Task.Types.{TaskId, TaskStatus, received, event_read, event_write}
use libpeco.Task.TaskList
use libpeco.Task.TaskList.FdCache.{without}
use libpeco.Task.Cache.{find_task, fetch_task}
use libpeco.Task.Loop.{Loop, Handler, read_timedout, write_timedout, deref}
use libpeco.Task.Loop.Invariant.{Listed, fire_time}
use libpeco.Task.Api.{yields, wakes, run_actions}
use libpeco.Task.Api.Slice.{run_actions-IsOwn}
use libpeco.Task.Main.{run_handler, run_one, on_event, cancel_all}
use libpeco.Task.Main.Keeps.{run_one-Listed}
use libpeco.Task.Main.Timeout.{run_handler-search}
use libpeco.Task.Main.Events.{on_event-Listed, cancel_all-Listed}
use libpeco.Task.Samples.{bump, bump-IsAllocator, task_at}

abbrev entry : TaskId → ℕ → Handler → TaskList.Entry Handler
entry tid time w = record { item = record { tid = tid; next_fire_time = time }; on_time = w }

-- Task 16 waits to read fd 7 until 5, task 32 to write it until 9.
abbrev two_waiting : Loop
two_waiting = record {
  cache = task_at 16 TaskStatus.paused 5 ∷ task_at 32 TaskStatus.paused 9 ∷ [];
  released = [];
  running_task = none;
  timed_list = record {
    ordered_time_map = entry 16 5 (read_timedout 7 16) ∷ entry 32 9 (write_timedout 7 32) ∷ [];
    fd_cache_map =
        record { fd = 7; event_type = event_read; tid = 16 }
        ∷ record { fd = 7; event_type = event_write; tid = 32 }
        ∷ [];
  };
  is_running = true;
  exit_code = 0;
  core_calls = [];
}

two_waiting-Listed : Listed two_waiting
unfolding fire_time fetch_task find_task
two_waiting-Listed = record {
  ordered = (omega arith, (omega arith, tt));
  known = (refl, (refl, tt));
}

found_16 : deref 16 two_waiting ≡ some (task_at 16 TaskStatus.paused 5)
unfolding deref find_task
found_16 = refl

-- The code of task 16 wakes the other one and yields.
run_one-Listed_example :
    Yields
      (run_one (run_actions bump ((6, wakes 32 received) ∷ (7, yields 16) ∷ [])) two_waiting)
      Listed
run_one-Listed_example =
    run_one-Listed (run_actions bump ((6, wakes 32 received) ∷ (7, yields 16) ∷ [])) two_waiting
      (entry 16 5 (read_timedout 7 16)) (entry 32 9 (write_timedout 7 32) ∷ []) refl
      two_waiting-Listed (task_at 16 TaskStatus.paused 5, found_16)
      (λ l.
        run_actions-IsOwn 16 bump bump-IsAllocator ((6, wakes 32 received) ∷ (7, yields 16) ∷ []) l
          ((tt, λ t h. absurd h), ((tt, λ t h. absurd h), tt)))

run_handler-search_example : Yields (run_handler (read_timedout 7 16) two_waiting) (λ l'.
    TaskList.search 7 event_read l'.timed_list
    ≡ without 16 (TaskList.search 7 event_read two_waiting.timed_list))
run_handler-search_example =
    (run_handler-search 7 16 (task_at 16 TaskStatus.paused 5) two_waiting (λ e. omega arith)
      found_16).0

on_event-Listed_example : Yields (on_event (λ k. 3 + k) 7 event_write two_waiting) Listed
on_event-Listed_example = on_event-Listed (λ k. 3 + k) 7 event_write two_waiting two_waiting-Listed

cancel_all-Listed_example :
    Yields (cancel_all (λ k. 4 + k) two_waiting) (λ l'. Listed l' × (l'.running_task ≡ none))
cancel_all-Listed_example =
    cancel_all-Listed (λ k. 4 + k) two_waiting two_waiting-Listed refl
      (λ e. omega arith, (λ e. omega arith, tt))
