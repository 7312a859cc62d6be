-- ===== src/Task/BasicTask/Swap.antt =====
-- How often a task runs, and its flags.
use libpeco.Base.{
  ℕ, zero, suc, ◌+◌, ◌-◌, ◌*◌, ◌^◌, ◌%◌, ◌<◌, true, false, List, [], ◌∷◌, ◌≡◌, refl, ap, ◌∙◌, arith,
  length, get_or, set, leb, ◌==◌, if◌then◌else◌,
}
use libpeco.Task.Types.{Task, TaskStatus, repeat_count_infinitive}
use libpeco.Task.BasicTask.{swap_in, swap_out, reset_task, set_flag, get_flag}

-- A number of rounds in each of which the worker returns.
pub rounds : ℕ → Task → Task
unfolding swap_in swap_out
rounds zero t = t
rounds (suc k) t = rounds k (swap_out (swap_in t))

more_rounds :
    (n : ℕ) (t : Task)
    → t.cancelled ≡ false
    → t.repeat_count ≡ suc (suc n)
    → suc n < 2 ^ 64 - 2
    → swap_out (swap_in t) ≡ record t {
      status = TaskStatus.pending;
      next_fire_time = t.next_fire_time + t.interval;
      repeat_count = suc n;
    }
unfolding swap_in swap_out reset_task
more_rounds n t c r b =
    let not_last : t.repeat_count == 1 ≡ false = ground arith in
    let counted : t.repeat_count == repeat_count_infinitive ≡ false = ground arith in
    let down : (t.repeat_count + 2 ^ 64 - 1) % 2 ^ 64 ≡ suc n = omega arith in
    rw (not_last, counted, c, down) refl

last_round :
    (t : Task)
    → t.repeat_count ≡ 1
    → swap_out (swap_in t) ≡ record t { status = TaskStatus.stopped }
unfolding swap_in swap_out
last_round t r = let last : t.repeat_count == 1 ≡ true = ground arith in rw last refl

stopped_last :
    (n : ℕ) (t : Task)
    → t.cancelled ≡ false
    → t.repeat_count ≡ suc n
    → n < 2 ^ 64 - 2
    → (rounds (suc n) t).status ≡ TaskStatus.stopped
unfolding rounds
stopped_last zero t c r b = ap (λ (u : Task). u.status) (last_round t r)
stopped_last (suc n) t c r b =
    rw (rounds, more_rounds n t c r b)
      (stopped_last n
        (record t {
          status = TaskStatus.pending;
          next_fire_time = t.next_fire_time + t.interval;
          repeat_count = suc n;
        })
        c refl (omega arith))

pending_before :
    (k m : ℕ) (t : Task)
    → t.cancelled ≡ false
    → t.repeat_count ≡ suc (suc (k + m))
    → suc (k + m) < 2 ^ 64 - 2
    → rounds (suc k) t ≡ record t {
      status = TaskStatus.pending;
      next_fire_time = t.next_fire_time + suc k * t.interval;
      repeat_count = suc m;
    }
unfolding rounds
pending_before zero m t c r b =
    let time : t.next_fire_time + t.interval ≡ t.next_fire_time + 1 * t.interval = omega arith in
    more_rounds m t c (omega arith) (omega arith)
    ∙ ap (λ x. record t { status = TaskStatus.pending; next_fire_time = x; repeat_count = suc m })
        time
pending_before (suc k) m t c r b =
    let u = record t {
      status = TaskStatus.pending;
      next_fire_time = t.next_fire_time + t.interval;
      repeat_count = suc (suc (k + m));
    } in
    let time : t.next_fire_time + t.interval + suc k * t.interval
        ≡ t.next_fire_time + suc (suc k) * t.interval =
      grind arith in
    ap (rounds (suc k)) (more_rounds (suc (k + m)) t c (omega arith) (omega arith))
    ∙ (pending_before k m u c (omega arith) (omega arith)
        ∙ ap
            (λ x. record t {
              status = TaskStatus.pending;
              next_fire_time = x;
              repeat_count = suc m;
            })
            time)

rounds_before :
    (k m : ℕ) (t : Task)
    → t.cancelled ≡ false
    → t.repeat_count ≡ suc (k + m)
    → k + m < 2 ^ 64 - 2
    → rounds k t ≡ record t {
      status = if k == 0 then t.status else TaskStatus.pending;
      next_fire_time = t.next_fire_time + k * t.interval;
      repeat_count = suc m;
    }
unfolding rounds
rounds_before zero m t c r b =
    let time : t.next_fire_time ≡ t.next_fire_time + 0 * t.interval = omega arith in
    let count : t.repeat_count ≡ suc m = omega arith in
    ap (λ x. record t { next_fire_time = x; repeat_count = t.repeat_count }) time
    ∙ ap (λ x. record t { next_fire_time = t.next_fire_time + 0 * t.interval; repeat_count = x })
        count
rounds_before (suc k) m t c r b =
    let later : suc k == 0 ≡ false = ground arith in
    rw later (pending_before k m t c (omega arith) (omega arith))

-- A task that is not cancelled, whose repeat count is k + m + 1 and below the two largest 64-bit
-- numbers, is stopped by its round k + m + 1. After only k rounds it is pending, or as it was
-- before the first, with k intervals added to its fire time, m + 1 rounds left, and nothing else
-- changed.
pub rounds-stopped :
    (k m : ℕ) (t : Task)
    → t.cancelled ≡ false
    → t.repeat_count ≡ suc (k + m)
    → k + m < 2 ^ 64 - 2
    → ((rounds (suc (k + m)) t).status ≡ TaskStatus.stopped)
      × (rounds k t ≡ record t {
        status = if k == 0 then t.status else TaskStatus.pending;
        next_fire_time = t.next_fire_time + k * t.interval;
        repeat_count = suc m;
      })
rounds-stopped k m t c r b = (stopped_last (k + m) t c r b, rounds_before k m t c r b)

get_or-set :
    (l : List ℕ) (i j v d : ℕ)
    → i < length l
    → get_or (set l i v) j d ≡ (if i == j then v else get_or l j d)
get_or-set [] i j v d h = absurd (omega arith)
get_or-set (x ∷ l) zero zero v d h = refl
get_or-set (x ∷ l) zero (suc j) v d h = ground arith
get_or-set (x ∷ l) (suc i) zero v d h = ground arith
get_or-set (x ∷ l) (suc i) (suc j) v d h = ground (arith, get_or-set l i j v d (omega arith))

-- A flag reads as what was last set at its index. Behind the 16 flags, setting does nothing and
-- the flag reads as -1.
pub get_flag-set_flag :
    (t : Task) (flag i j : ℕ)
    → length t.flags ≡ 16
    → get_flag j (set_flag flag i t)
      ≡ (if leb 16 j then 2 ^ 64 - 1 else if i == j then flag else get_flag j t)
unfolding get_flag set_flag
get_flag-set_flag t flag i j h = ground (arith, get_or-set t.flags i j flag 0)
