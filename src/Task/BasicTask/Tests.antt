-- ===== src/Task/BasicTask/Tests.antt =====
-- A task at concrete values.
use libpeco.Base.{ℕ, zero, suc, false, List, [], ◌∷◌, none, ◌≡◌, refl, arith}
use libpeco.Task.Types.{Task, TaskStatus, nothing}
use libpeco.Task.BasicTask.Swap.{rounds, rounds-stopped}

abbrev copies : ℕ → ℕ → List ℕ
copies zero x = []
copies (suc n) x = x ∷ copies n x

-- A task with three rounds, 50 apart, in a buffer with old bytes.
abbrev three_rounds : Task
three_rounds = record {
  tid = 4096;
  worker = 1;
  atexit = none;
  status = TaskStatus.paused;
  cancelled = false;
  signal = nothing;
  repeat_count = 3;
  next_fire_time = 100;
  interval = 50;
  name = copies 64 120;
  arg = 0;
  flags = copies 16 0;
  parent_tid = 0;
}

rounds-stopped_example :
    ((rounds 3 three_rounds).status ≡ TaskStatus.stopped)
    × (rounds 1 three_rounds ≡ record three_rounds {
      status = TaskStatus.pending;
      next_fire_time = 150;
      repeat_count = 2;
    })
rounds-stopped_example = rounds-stopped 1 1 three_rounds refl refl (omega arith)
