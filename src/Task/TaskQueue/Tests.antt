-- ===== src/Task/TaskQueue/Tests.antt =====
-- A queue at a concrete loop.
use libpeco.Base.{[], ◌∷◌, some, ◌≡◌, refl, arith, ◌>>=◌}
use libpeco.Task.Api.{is_cancelled}
use libpeco.Task.Cache.{fetch_task, find_task}
use libpeco.Task.Samples.{running_16}
use libpeco.Task.TaskQueue.{TaskQueue, run_ready}
use libpeco.Task.TaskQueue.Laws.{append_all, queue, run_ready-append_all}

abbrev one_worker : TaskQueue
one_worker = record {
  inner_t = 32;
  sem = record { count = 1; waiting_task = [] };
  pending_task_list = 7 ∷ [];
}

run_ready-append_all_example :
    (append_all 5 (8 ∷ 9 ∷ []) one_worker running_16 >>= λ o. run_ready (λ w l. l) 3 o.0 o.1)
    ≡ some (7 ∷ 8 ∷ 9 ∷ [], (queue 32 0 [], running_16))
unfolding is_cancelled fetch_task find_task
run_ready-append_all_example =
    run_ready-append_all (λ w l. l) 32 (λ w l h. h) 5 8 (9 ∷ []) one_worker running_16 refl tt refl
      (omega arith) refl
