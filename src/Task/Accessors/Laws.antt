-- ===== src/Task/Accessors/Laws.antt =====
-- What is read through an id after a write through it, and that no such write disturbs the loop.
use libpeco.Base.{
  ℕ, ◌^◌, ◌-◌, Option, none, some, ◌≡◌, refl, ◌∙◌, arith, length, leb, ◌==◌, if◌then◌else◌,
  Option-cases, inl, inr, Bytes,
}
use libpeco.Task.Types.{TaskId, Task}
use libpeco.Task.Cache.{fetch_task}
use libpeco.Task.BasicTask
use libpeco.Task.BasicTask.Swap
use libpeco.Task.Loop.{Loop, modify}
use libpeco.Task.Loop.Invariant.{Listed, modified, modify-Listed}
use libpeco.Task.Accessors.{set_arg, get_arg, set_flag, get_flag, set_name, update_interval}

module _ (tid : TaskId) (l : Loop) (t : Task) (here : fetch_task tid l.cache ≡ some t) where
  get_arg_here : get_arg tid l ≡ t.arg
  unfolding get_arg
  get_arg_here = rw (here, get_arg) refl

  get_flag_here : (j : ℕ) → get_flag tid j l ≡ BasicTask.get_flag j t
  unfolding get_flag
  get_flag_here j = rw (here, get_flag) refl

  set_arg_here : (a : ℕ) → set_arg tid a l ≡ modify tid (BasicTask.set_arg a) l
  unfolding set_arg
  set_arg_here a = rw (here, set_arg) refl

  set_flag_here : (flag i : ℕ) → set_flag tid flag i l ≡ modify tid (BasicTask.set_flag flag i) l
  unfolding set_flag
  set_flag_here flag i = rw (here, set_flag) refl

  arg_set : (a : ℕ) → fetch_task tid (set_arg tid a l).cache ≡ some (BasicTask.set_arg a t)
  unfolding BasicTask.set_arg
  arg_set a = rw (set_arg_here a) (modified tid (BasicTask.set_arg a) l t (λ u. refl) here)

  flag_set :
      (flag i : ℕ)
      → fetch_task tid (set_flag tid flag i l).cache ≡ some (BasicTask.set_flag flag i t)
  unfolding BasicTask.set_flag
  flag_set flag i =
      rw (set_flag_here flag i)
        (modified tid (BasicTask.set_flag flag i) l t (λ u. ground arith) here)

module _ (tid : TaskId) (l : Loop) (gone : fetch_task tid l.cache ≡ none) where
  get_arg_gone : get_arg tid l ≡ 0
  unfolding get_arg
  get_arg_gone = rw (gone, get_arg) refl

  get_flag_gone : (j : ℕ) → get_flag tid j l ≡ 0
  unfolding get_flag
  get_flag_gone j = rw (gone, get_flag) refl

  set_arg_gone : (a : ℕ) → set_arg tid a l ≡ l
  unfolding set_arg
  set_arg_gone a = rw (gone, set_arg) refl

  set_flag_gone : (flag i : ℕ) → set_flag tid flag i l ≡ l
  unfolding set_flag
  set_flag_gone flag i = rw (gone, set_flag) refl

-- For a task that is alive and has its 16 flags, an argument that is set is read back, and so is
-- a flag at an index below 16, while the flags at the other indices stay; from 16 on a flag reads
-- as -1.
pub reads-writes :
    (tid : TaskId) (l : Loop) (a flag i j : ℕ) (t : Task)
    → fetch_task tid l.cache ≡ some t
    → length t.flags ≡ 16
    → (get_arg tid (set_arg tid a l) ≡ a)
      × (get_flag tid j (set_flag tid flag i l)
          ≡ (if leb 16 j then 2 ^ 64 - 1 else if i == j then flag else get_flag tid j l))
unfolding BasicTask.set_arg
reads-writes tid l a flag i j t here n = (
  get_arg_here tid (set_arg tid a l) (BasicTask.set_arg a t) (arg_set tid l t here a),
  get_flag_here tid (set_flag tid flag i l) (BasicTask.set_flag flag i t)
        (flag_set tid l t here flag i) j
      ∙ rw (get_flag_here tid l t here j) (Swap.get_flag-set_flag t flag i j n),
)

-- A write to a task that is gone changes nothing, and it reads as 0.
pub reads-gone :
    (tid : TaskId) (l : Loop) (a flag i j : ℕ)
    → fetch_task tid l.cache ≡ none
    → (set_arg tid a l ≡ l)
      × (set_flag tid flag i l ≡ l)
      × (get_arg tid l ≡ 0)
      × (get_flag tid j l ≡ 0)
reads-gone tid l a flag i j gone = (
  set_arg_gone tid l gone a,
  set_flag_gone tid l gone flag i,
  get_arg_gone tid l gone,
  get_flag_gone tid l gone j,
)

named : (n : Option Bytes) (u : Task) → (BasicTask.set_name n u).tid ≡ u.tid
unfolding BasicTask.set_name
named none u = refl
named (some n) u = refl

named_time :
    (n : Option Bytes) (u : Task) → (BasicTask.set_name n u).next_fire_time ≡ u.next_fire_time
unfolding BasicTask.set_name
named_time none u = refl
named_time (some n) u = refl

-- A write through an id that leaves id and fire time as they are.
writes :
    (tid : TaskId) (l : Loop) (f : Task → Task)
    → ((u : Task) → (f u).tid ≡ u.tid)
    → ((u : Task) → (f u).next_fire_time ≡ u.next_fire_time)
    → Listed l
    → Listed (elim (fetch_task tid l.cache) as (λ x. Loop) [ none ↦ l | some t ↦ modify tid f l ])
writes tid l f keeps same v = elim (Option-cases (fetch_task tid l.cache)) [
  | inl e ↦ rw e v
  | inr (t, e) ↦ rw e (modify-Listed tid f l t keeps e (same t) v)
]

-- No write of an argument, a flag, a name or an interval through an id disturbs the agreement of timed list and cache.
pub writes-Listed :
    (tid : TaskId) (l : Loop) (a flag i interval : ℕ) (n : Option Bytes)
    → Listed l
    → Listed (set_arg tid a l)
      × Listed (set_flag tid flag i l)
      × Listed (set_name tid n l)
      × Listed (update_interval tid interval l)
unfolding set_arg set_flag set_name update_interval BasicTask.set_arg BasicTask.set_flag
    BasicTask.set_name BasicTask.update_interval
writes-Listed tid l a flag i interval n v = (
  writes tid l (BasicTask.set_arg a) (λ u. refl) (λ u. refl) v,
  writes tid l (BasicTask.set_flag flag i) (λ u. ground arith) (λ u. ground arith) v,
  writes tid l (BasicTask.set_name n) (named n) (named_time n) v,
  writes tid l (BasicTask.update_interval interval) (λ u. refl) (λ u. refl) v,
)
