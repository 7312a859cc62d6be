-- ===== src/Task/Api/Slice.antt =====
-- The code of a task from a switch to it up to the switch back, whatever calls it makes.
use libpeco.Base.{
  ℕ, List, [], ◌∷◌, Option, none, some, All, ◌≡◌, ◌≢◌, ◌⊎◌, inl, inr, refl, sym, subst, ◌==◌, ==→eq,
  Bool-cases, Yields, ◌>>=◌, arith,
}
use libpeco.Task.Types.{TaskId, Time}
use libpeco.Task.Loop.{Loop, Control, returns, swaps, exit, core_call}
use libpeco.Task.Loop.Invariant.{IsCached}
use libpeco.Task.Loop.Calls.{InSlice, Swapped, After}
use libpeco.Task.Api.{
  Memory, Action, yields, holds, holds_for, sleeps, waits_for, wakes, cancels, runs, runs_loop,
  runs_delay, exits, sleeps_on, holding, holding_until, sleep, wait_fd_for_event, run, run_loop,
  run_delay, act, run_actions,
}
use libpeco.Task.Api.Keeps.{
  IsAllocator, this_task_current, yields-After, holds-After, holds_for-After, sleeps-After,
  sleeps_on-After, waits_for-After, held_elsewhere, wakes-InSlice, cancels-InSlice, starts-InSlice,
}

stay_lem :
    (r : TaskId) (o : Option Loop)
    → Yields o (InSlice r)
    → Yields (o >>= λ x. some (x, returns)) (After r)
stay_lem r o (l', e, s) = ((l', returns), rw e, s)

-- Whether a call holds the caller by the id of a task.
abbrev pub Holds : TaskId → Action → Type 0
Holds tid (holds t) = t ≡ tid
Holds tid (holds_for d t) = t ≡ tid
Holds tid (sleeps d t) = t ≡ tid
Holds tid c = ⊥

-- `wait_fd_for_event` is called on the caller's own id.
abbrev pub WaitsOwn : TaskId → Action → Type 0
WaitsOwn r (waits_for fd ev d tid) = tid ≡ r
WaitsOwn r c = Unit

-- A call in these comes to an assert that fails: it holds by the id of another task in the cache.
pub data Refused (r : TaskId) (mem : Memory) : List (Time × Action) → Loop → Type 0 where
  here :
      {now : Time} {c : Action} {calls : List (Time × Action)} {l : Loop} {tid : TaskId}
      → Holds tid c
      → tid ≢ r
      → IsCached tid l
      → Refused r mem ((now, c) ∷ calls) l
  later :
      {now : Time} {c : Action} {calls : List (Time × Action)} {l l' : Loop}
      → act mem now c l ≡ some (l', returns)
      → Refused r mem calls l'
      → Refused r mem ((now, c) ∷ calls) l

-- What one call comes to.
abbrev Answers : TaskId → Memory → Time → Action → Loop → Type 0
Answers r mem now c l =
    Yields (act mem now c l) (After r)
    ⊎ ((tid : TaskId) × Holds tid c × (tid ≢ r) × IsCached tid l × (act mem now c l ≡ none))

module _ (r : TaskId) (mem : Memory) (a : IsAllocator mem) where
  holds-Answers :
      (now : Time) (tid : TaskId) (l : Loop) → InSlice r l → Answers r mem now (holds tid) l
  unfolding act
  holds-Answers now tid l s = elim (Bool-cases (tid == r)) [
    | inl e ↦
        inl (subst (λ t. Yields (holding t l) (After r)) (sym (==→eq tid r e)) (holds-After r l s))
    | inr e ↦
        let n : tid ≢ r = ground arith in
        elim (held_elsewhere r l s now 0 tid n) [
          | inl (h, _, _) ↦ inl ((l, returns), h, s)
          | inr (c, h, _, _) ↦ inr (tid, refl, n, c, h)
        ]
  ]

  holds_for-Answers :
      (now : Time) (d : ℕ) (tid : TaskId) (l : Loop)
      → InSlice r l
      → Answers r mem now (holds_for d tid) l
  unfolding act
  holds_for-Answers now d tid l s = elim (Bool-cases (tid == r)) [
    | inl e ↦ inl (
        subst (λ t. Yields (holding_until now d t l) (After r)) (sym (==→eq tid r e))
          (holds_for-After r l s now d))
    | inr e ↦
        let n : tid ≢ r = ground arith in
        elim (held_elsewhere r l s now d tid n) [
          | inl (_, h, _) ↦ inl ((l, returns), h, s)
          | inr (c, _, h, _) ↦ inr (tid, refl, n, c, h)
        ]
  ]

  sleeps-Answers :
      (now : Time) (d : ℕ) (tid : TaskId) (l : Loop)
      → InSlice r l
      → Answers r mem now (sleeps d tid) l
  unfolding act
  sleeps-Answers now d tid l s = elim (Bool-cases (tid == r)) [
    | inl e ↦ inl (
        subst (λ t. Yields (sleep now d t l) (After r)) (sym (==→eq tid r e))
          (sleeps-After r l s now d))
    | inr e ↦
        let n : tid ≢ r = ground arith in
        elim (held_elsewhere r l s now d tid n) [
          | inl (_, _, h) ↦ inl ((l, returns), h, s)
          | inr (c, _, _, h) ↦ inr (tid, refl, n, c, h)
        ]
  ]

  -- Every call succeeds, no assert failing and no null pointer being dereferenced, or holds by the
  -- id of another task, whose assert fails.
  act-Answers :
      (now : Time) (c : Action) (l : Loop) → WaitsOwn r c → InSlice r l → Answers r mem now c l
  unfolding act run run_loop run_delay exit core_call
  act-Answers now (yields tid) l w s = inl (yields-After r l s now tid)
  act-Answers now (holds tid) l w s = holds-Answers now tid l s
  act-Answers now (holds_for d tid) l w s = holds_for-Answers now d tid l s
  act-Answers now (sleeps d tid) l w s = sleeps-Answers now d tid l s
  act-Answers now (waits_for fd ev d tid) l w s = inl (
      subst (λ t. Yields (wait_fd_for_event now fd ev d t l) (After r)) (sym w)
        (waits_for-After r l s now fd ev d))
  act-Answers now (wakes tid g) l w s = inl (stay_lem r _ (wakes-InSlice r l s now tid g))
  act-Answers now (cancels tid) l w s = inl (stay_lem r _ (cancels-InSlice r l s now tid))
  act-Answers now (runs worker name) l w s =
      inl (stay_lem r _ (starts-InSlice r l s mem now worker 1 0 name a))
  act-Answers now (runs_loop worker interval name) l w s =
      inl (stay_lem r _ (starts-InSlice r l s mem now worker _ interval name a))
  act-Answers now (runs_delay worker delay name) l w s =
      inl (stay_lem r _ (starts-InSlice r l s mem now worker 1 delay name a))
  act-Answers now (exits code) l w s = inl (
    (exit code l, returns),
    refl,
    record {
      listed = record { ordered = s.listed.ordered; known = s.listed.known };
      current = s.current;
      cached = s.cached;
      unlisted = s.unlisted;
    },
  )
  act-Answers now (sleeps_on checked e) l w s =
      inl (rw (this_task_current r l s) (sleeps_on-After r l s checked now e))

-- Where the code of task `r` stops: its worker has returned, or it waits.
pub data Stops (r : TaskId) (l : Loop) : Type 0 where
  returned : InSlice r l → Stops r l
  switched : Swapped r l → Stops r l

-- What a sequence of calls comes to.
abbrev Ends : TaskId → Memory → List (Time × Action) → Loop → Type 0
Ends r mem calls l =
    Yields (run_actions mem calls l) (Stops r)
    ⊎ (Refused r mem calls l × (run_actions mem calls l ≡ none))

after_return :
    (r : TaskId) (mem : Memory) (now : Time) (c : Action) (calls : List (Time × Action))
    (l l' : Loop)
    → act mem now c l ≡ some (l', returns)
    → Ends r mem calls l'
    → Ends r mem ((now, c) ∷ calls) l
unfolding run_actions
after_return r mem now c calls l l' e (inl y) = inl (rw e y)
after_return r mem now c calls l l' e (inr (h, k)) = inr (later e h, rw e k)

continued :
    (r : TaskId) (mem : Memory) (now : Time) (c : Action) (calls : List (Time × Action)) (l : Loop)
    (out : Loop × Control)
    → act mem now c l ≡ some out
    → After r out
    → ((l' : Loop) → InSlice r l' → Ends r mem calls l')
    → Ends r mem ((now, c) ∷ calls) l
unfolding run_actions
continued r mem now c calls l (l', returns) e s rest =
    after_return r mem now c calls l l' e (rest l' s)
continued r mem now c calls l (l', swaps) e s rest = inl (rw e (l', refl, switched s))

-- From a loop whose list and cache agree, with task `r` running, the code of `r` makes any calls on
-- the ids of any tasks, except that it waits for an fd on its own id only. Then either all calls
-- succeed: no assert of the loop fails and no null pointer is dereferenced, list and cache agree
-- afterwards, and `r` is either still the running task and in no entry of the list, or cached as
-- paused. Or the code comes to a call of holding, holding_until or sleep on another task in the
-- cache, whose assert fails, and no assert and no null pointer stops it before.
pub run_actions-Stops :
    (r : TaskId) (mem : Memory)
    → IsAllocator mem
    → (calls : List (Time × Action)) (l : Loop) → All (λ c. WaitsOwn r c.1) calls
    → InSlice r l
    → Yields (run_actions mem calls l) (Stops r)
      ⊎ (Refused r mem calls l × (run_actions mem calls l ≡ none))
unfolding run_actions
run_actions-Stops r mem a [] l w s = inl (l, refl, returned s)
run_actions-Stops r mem a ((now, c) ∷ calls) l (w, ws) s = elim (act-Answers r mem a now c l w s) [
  | inl (out, e, after) ↦
      continued r mem now c calls l out e after (λ l'. run_actions-Stops r mem a calls l' ws)
  | inr (tid, h, n, k, e) ↦ inr (here h n k, rw e refl)
]

-- A call that holds or waits does so on the caller's own id.
abbrev pub IsOwn : TaskId → Action → Type 0
IsOwn r c = WaitsOwn r c × ((tid : TaskId) → Holds tid c → tid ≡ r)

not-Refused :
    (r : TaskId) (mem : Memory) (calls : List (Time × Action)) (l : Loop)
    → Refused r mem calls l
    → All (λ c. IsOwn r c.1) calls
    → ⊥
not-Refused r mem _ l (here {tid = tid} h n k) (o, os) = n (o.1 tid h)
not-Refused r mem _ l (later {calls = calls} {l' = l'} e h) (o, os) =
    not-Refused r mem calls l' h os

IsOwn-WaitsOwn :
    (r : TaskId) (calls : List (Time × Action))
    → All (λ c. IsOwn r c.1) calls
    → All (λ c. WaitsOwn r c.1) calls
IsOwn-WaitsOwn r [] o = tt
IsOwn-WaitsOwn r (c ∷ calls) (o, os) = (o.0, IsOwn-WaitsOwn r calls os)

-- The same where every call that holds is made on the caller's own id: all calls succeed.
pub run_actions-IsOwn :
    (r : TaskId) (mem : Memory)
    → IsAllocator mem
    → (calls : List (Time × Action)) (l : Loop) → All (λ c. IsOwn r c.1) calls
    → InSlice r l
    → Yields (run_actions mem calls l) (Stops r)
run_actions-IsOwn r mem a calls l o s =
    elim (run_actions-Stops r mem a calls l (IsOwn-WaitsOwn r calls o) s) [
      | inl y ↦ y
      | inr (h, e) ↦ absurd (not-Refused r mem calls l h o)
    ]
