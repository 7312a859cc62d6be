-- ===== src/Task/Main/Events.antt =====
-- The event handler of main, and its cancelling of every task.
use libpeco.Base.{
  ℕ, suc, false, List, [], ◌∷◌, none, some, ◌≡◌, ◌≢◌, refl, sym, subst, ◌∙◌, arith, All, ◌==◌,
  if◌then◌else◌, inl, inr, Option-cases, Yields, ==_self,
}
use libpeco.Task.Types.{
  TaskId, Time, Fd, Task, WaitingSignal, received, EventType, event_read, no_fd, invalidate_task_id,
}
use libpeco.Task.TaskList
use libpeco.Task.TaskList.{item_of}
use libpeco.Task.TaskList.Order.{map_erase-Above}
use libpeco.Task.TaskList.Items.{Unlisted, map_erase-AllItems, map_erase-Unlisted}
use libpeco.Task.Cache.{find_task, fetch_task}
use libpeco.Task.Cache.Laws.{find_task-tid, fetch_task-some}
use libpeco.Task.Loop.{Loop, no_handler, is_current}
use libpeco.Task.Loop.Invariant.{Listed, IsCached, Frame, Known-Agrees, schedule}
use libpeco.Task.Loop.Calls.{cancel-Listed}
use libpeco.Task.Main.{resume_with, resume_received, on_event, cancel_each, cancel_all}

module _ (tid : TaskId) (l : Loop) (t : Task) (here : fetch_task tid l.cache ≡ some t)
    (v : Listed l) (fd : Fd) (ev : EventType) where
  -- The loop without the task in its list.
  abbrev erased : Loop
  erased = record l { timed_list = TaskList.erase (some t) fd ev l.timed_list }

  erased-Listed : Listed erased
  unfolding TaskList.erase
  erased-Listed = record {
    ordered = map_erase-Above (item_of t) 0 l.timed_list.ordered_time_map v.ordered;
    known = map_erase-AllItems _ (item_of t) l.timed_list.ordered_time_map v.known;
  }

  erased-Unlisted : Unlisted tid erased.timed_list.ordered_time_map
  unfolding TaskList.erase
  erased-Unlisted =
      let own : t.tid ≡ tid = find_task-tid tid l.cache t (fetch_task-some tid l.cache t here).0 in
      subst (λ x. Unlisted x erased.timed_list.ordered_time_map) own
        (map_erase-Unlisted (item_of t) 0 l.timed_list.ordered_time_map v.ordered
          (Known-Agrees tid l t v here))

  erased-resumed : (s : WaitingSignal) (now : Time) → Yields (resume_with s now tid erased) Listed
  unfolding resume_with
  erased-resumed s now =
      let (l', e, (v', _)) =
        schedule tid (λ u. record u { signal = s; next_fire_time = now }) erased t (λ u. refl) here
          no_handler no_fd event_read erased-Listed erased-Unlisted in
      (l', rw (here, resume_with) e, v')

resume_received-Listed :
    (clock : ℕ → Time) (k : ℕ) (fd : Fd) (ev : EventType) (ids : List TaskId) (l : Loop)
    → Listed l
    → Yields (resume_received clock k fd ev ids l) Listed
unfolding resume_received TaskList.erase resume_with
resume_received-Listed clock k fd ev [] l v = (l, refl, v)
resume_received-Listed clock k fd ev (tid ∷ ids) l v =
    let one : Yields
        (resume_with received (clock k) tid
          (record l { timed_list = TaskList.erase (fetch_task tid l.cache) fd ev l.timed_list }))
        Listed =
      elim (Option-cases (fetch_task tid l.cache)) [
        | inl e ↦
            let same : TaskList.erase (fetch_task tid l.cache) fd ev l.timed_list ≡ l.timed_list =
              rw (e, TaskList.erase) refl in
            subst
              (λ m.
                Yields (resume_with received (clock k) tid (record l { timed_list = m })) Listed)
              (sym same) (l, rw (e, resume_with) refl, v)
        | inr (t, e) ↦ rw e (erased-resumed tid l t e v fd ev received (clock k))
      ] in
    let (l1, e1, v1) = one in
    let (l2, e2, v2) = resume_received-Listed clock (suc k) fd ev ids l1 v1 in (l2, rw e1 e2, v2)

-- The handler of an event on an fd succeeds, whatever its tasks are, and keeps the agreement of
-- list and cache.
pub on_event-Listed :
    (clock : ℕ → Time) (fd : Fd) (ev : EventType) (l : Loop)
    → Listed l
    → Yields (on_event clock fd ev l) Listed
unfolding on_event
on_event-Listed clock fd ev l v =
    resume_received-Listed clock 0 fd ev (TaskList.search fd ev l.timed_list) l v

-- The tasks stand in the cache, and main runs.
Kept : List Task → Loop → Type 0
Kept ts l = All (λ (t : Task). IsCached t.tid l) ts × (l.running_task ≡ none)

not_current : (tid : TaskId) (l : Loop) → l.running_task ≡ none → is_current tid l ≡ false
unfolding is_current
not_current tid l e = rw (e, is_current) refl

Kept-Frame : (ts : List Task) (tid : TaskId) (l l' : Loop) → Frame tid l l' → Kept ts l → Kept ts l'
unfolding Kept
Kept-Frame [] tid l l' f k = (tt, f.running ∙ k.1)
Kept-Frame (t ∷ ts) tid l l' f k =
    let (rest, r) = Kept-Frame ts tid l l' f (k.0.1, k.1) in ((f.cached t.tid k.0.0, rest), r)

cancel_each-Listed :
    (clock : ℕ → Time) (k : ℕ) (ts : List Task) (l : Loop)
    → Listed l
    → Kept ts l
    → Yields (cancel_each clock k ts l) (λ l'. Listed l' × (l'.running_task ≡ none))
unfolding cancel_each Kept
cancel_each-Listed clock k [] l v c = (l, refl, (v, c.1))
cancel_each-Listed clock k (t ∷ ts) l v c =
    let (l1, e1, (v1, f)) = cancel-Listed t.tid l v c.0.0 (not_current t.tid l c.1) (clock k) in
    let (l2, e2, p) =
      cancel_each-Listed clock (suc k) ts l1 v1 (Kept-Frame ts t.tid l l1 f (c.0.1, c.1)) in
    (l2, rw e1 e2, p)

Found : List Task → Task → Type 0
Found c t = (u : Task) × (find_task t.tid c ≡ some u)

Found-cons : (t : Task) (c ts : List Task) → All (Found c) ts → All (Found (t ∷ c)) ts
unfolding Found find_task
Found-cons t c [] h = tt
Found-cons t c (x ∷ ts) h =
    ((if t.tid == x.tid then t else h.0.0, ground arith), Found-cons t c ts h.1)

every-Found : (c : List Task) → All (Found c) c
unfolding Found find_task
every-Found [] = tt
every-Found (t ∷ c) = ((t, rw (==_self t.tid) refl), Found-cons t c c (every-Found c))

every-Kept :
    (l : Loop) (ts : List Task)
    → l.running_task ≡ none
    → All (Found l.cache) ts
    → All (λ (t : Task). t.tid ≢ invalidate_task_id) ts
    → Kept ts l
unfolding Kept Found fetch_task
every-Kept l [] r f h = (tt, r)
every-Kept l (t ∷ ts) r f h =
    let (rest, r') = every-Kept l ts r f.1 h.1 in (((f.0.0, ground arith), rest), r')

-- Cancelling every task of the cache from main succeeds, when list and cache agree and no id is
-- -1: no assert fails and no null pointer is dereferenced. List and cache agree afterwards.
pub cancel_all-Listed :
    (clock : ℕ → Time) (l : Loop)
    → Listed l
    → l.running_task ≡ none
    → All (λ (t : Task). t.tid ≢ invalidate_task_id) l.cache
    → Yields (cancel_all clock l) (λ l'. Listed l' × (l'.running_task ≡ none))
unfolding cancel_all
cancel_all-Listed clock l v r h =
    cancel_each-Listed clock 0 l.cache l v (every-Kept l l.cache r (every-Found l.cache) h)
