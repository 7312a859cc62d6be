-- ===== src/Task/TaskQueue/Laws.antt =====
-- The order in which the workers of a queue run.
use libpeco.Base.{
  ℕ, suc, ◌+◌, ◌^◌, ◌<◌, ◌≡◌, List, [], ◌∷◌, ◌++◌, append_assoc, append-nil, Option, some, refl,
  sym, ap, ◌∙◌, arith, All, false, length, length-append, ◌>>=◌,
}
use libpeco.Task.Types.{Time, TaskId}
use libpeco.Task.Loop.{Loop}
use libpeco.Task.Api.{is_alive, is_cancelled}
use libpeco.Task.Semaphore.Laws.{give-none, fetch_one}
use libpeco.Task.TaskQueue.{TaskQueue, append, fetch_round, take_front, run_ready}

abbrev pub append_all : Time → List ℕ → TaskQueue → Loop → Option (TaskQueue × Loop)
append_all now [] q l = some (q, l)
append_all now (w ∷ ws) q l = append now w q l >>= λ o. append_all now ws o.0 o.1

abbrev pub run_all : (ℕ → Loop → Loop) → List ℕ → Loop → Loop
run_all run [] l = l
run_all run (w ∷ ws) l = run_all run ws (run w l)

-- A queue that nobody waits for.
abbrev pub queue : TaskId → ℕ → List ℕ → TaskQueue
queue i c ws = record {
  inner_t = i;
  sem = record { count = c; waiting_task = [] };
  pending_task_list = ws;
}

append_all-queue :
    (now : Time) (i : TaskId) (c : ℕ) (vs ws : List ℕ) (l : Loop)
    → c + length ws < 2 ^ 32
    → append_all now ws (queue i c vs) l ≡ some (queue i (c + length ws) (vs ++ ws), l)
unfolding append
append_all-queue now i c vs [] l h =
    let none_more : c + 0 ≡ c = omega arith in rw (none_more, append-nil vs) refl
append_all-queue now i c vs (w ∷ ws) l h =
    let next : c + suc (length ws) ≡ suc c + length ws = omega arith in
    let shift : (vs ++ w ∷ []) ++ ws ≡ vs ++ w ∷ ws = append_assoc vs (w ∷ []) ws in
    rw (give-none now (record { count = c; waiting_task = [] }) l tt (omega arith), next)
      (append_all-queue now i (suc c) (vs ++ w ∷ []) ws l (omega arith)
        ∙ ap (λ t. some (queue i (suc c + length ws) t, l)) shift)

module _ (run : ℕ → Loop → Loop) (i : TaskId)
    (lives : (w : ℕ) (l : Loop) → is_cancelled i l ≡ false → is_cancelled i (run w l) ≡ false) where
  run_ready-queue :
      (ws : List ℕ) (l : Loop)
      → is_cancelled i l ≡ false
      → run_ready run (length ws) (queue i (length ws) ws) l
        ≡ some (ws, (queue i 0 [], run_all run ws l))
  unfolding run_ready fetch_round take_front
  run_ready-queue [] l h = refl
  run_ready-queue (w ∷ ws) l h =
      rw (h, fetch_one (length ws) [] l, run_ready-queue ws (run w l) (lives w l h)) refl

  -- Workers that are appended while no living task waits all run, once the inner task comes to run,
  -- in the order in which they were appended and behind those that were pending: as many rounds as
  -- there are workers leave an empty queue with no count. What the workers do to the loop must keep
  -- the inner task uncancelled; they do not touch the queue, whose count is the number of pending
  -- workers and does not wrap.
  pub run_ready-append_all :
      (now : Time) (w : ℕ) (ws : List ℕ) (q : TaskQueue) (l : Loop)
      → i ≡ q.inner_t
      → All (λ t. is_alive t l ≡ false) q.sem.waiting_task
      → q.sem.count ≡ length q.pending_task_list
      → length (q.pending_task_list ++ w ∷ ws) < 2 ^ 32
      → is_cancelled i l ≡ false
      → (append_all now (w ∷ ws) q l >>= λ o.
          run_ready run (length (q.pending_task_list ++ w ∷ ws)) o.0 o.1)
        ≡ some (
          q.pending_task_list ++ w ∷ ws,
          (queue i 0 [], run_all run (q.pending_task_list ++ w ∷ ws) l),
        )
  unfolding append
  run_ready-append_all now w ws q l hi alone hc small h =
      let all = q.pending_task_list ++ w ∷ ws in
      let size = length-append q.pending_task_list (w ∷ ws) in
      let total : suc q.sem.count + length ws ≡ length all = omega (arith, size, hc) in
      let shift : (q.pending_task_list ++ w ∷ []) ++ ws ≡ all =
        append_assoc q.pending_task_list (w ∷ []) ws in
      rw
        (
          give-none now q.sem l alone (omega (arith, size, hc, small)),
          sym hi,
          append_all-queue now i (suc q.sem.count) (q.pending_task_list ++ w ∷ []) ws l
              (omega (arith, total, small)),
          total,
          shift,
        )
        (run_ready-queue all l h)
