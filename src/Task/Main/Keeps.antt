-- ===== src/Task/Main/Keeps.antt =====
-- One round of main: the task at the head of the timed list is resumed, and what is left agrees
-- with the cache again.
use libpeco.Base.{
  suc, List, ◌∷◌, Option, none, some, ◌≡◌, ◌≢◌, refl, ap, subst, ◌∙◌, arith, ◌==◌, if◌then◌else◌,
  Bool-cases, inl, inr, Option-cases, Yields, Yields_if,
}
use libpeco.Task.Types.{TaskId, Fd, Task, TaskStatus, broken, event_read, no_fd, status_eq}
use libpeco.Task.TaskList
use libpeco.Task.TaskList.{Item, Entry, TaskList, item_of}
use libpeco.Task.TaskList.Order.{map_erase-Above}
use libpeco.Task.TaskList.Order
use libpeco.Task.TaskList.Items.{
  Unlisted, AllItems-mono, AllItems-both, Agrees-Unlisted, map_erase-AllItems,
}
use libpeco.Task.BasicTask.{swap_in, swap_out, reset_task}
use libpeco.Task.Cache.{fetch_task}
use libpeco.Task.Cache.Laws.{find_task-remove_task}
use libpeco.Task.Loop.{
  Loop, Handler, no_handler, read_timedout, write_timedout, CoreCall, deref, modify, core_call,
}
use libpeco.Task.Loop.Invariant.{
  Listed, IsCached, fire_time, Known, deref_cached, fetch_task-update_task,
  fire_time-update_task_ne, fire_time-update_task_same, insert_timed-Listed,
}
use libpeco.Task.Loop.Calls.{InSlice, Swapped}
use libpeco.Task.Api.Slice.{Stops, returned, switched}
use libpeco.Task.Main.{
  timed_out, run_handler, swap_to_task, settle_by, settle, destroy_task, run_one,
}

-- A task that has been taken out of the list.
record Taken (r : TaskId) (l : Loop) : Type 0 where
  listed : Listed l
  cached : IsCached r l
  unlisted : Unlisted r l.timed_list.ordered_time_map

-- A task of the cache, or one that a closure still holds.
abbrev pub Exists : TaskId → Loop → Type 0
Exists tid l = (t : Task) × (deref tid l ≡ some t)

abbrev pub HandlerExists : Handler → Loop → Type 0
HandlerExists no_handler l = Unit
HandlerExists (read_timedout fd tid) l = Exists tid l
HandlerExists (write_timedout fd tid) l = Exists tid l

HandlerExists-timed_list :
    (w : Handler) (l : Loop) (m : TaskList Handler)
    → HandlerExists w l
    → HandlerExists w (record l { timed_list = m })
unfolding deref
HandlerExists-timed_list no_handler l m h = tt
HandlerExists-timed_list (read_timedout fd tid) l m h = h
HandlerExists-timed_list (write_timedout fd tid) l m h = h

-- A write to some task that leaves its fire time as it was.
modify-Taken :
    (r tid : TaskId) (f : Task → Task) (l : Loop)
    → ((u : Task) → (f u).tid ≡ u.tid)
    → ((u : Task) → (f u).next_fire_time ≡ u.next_fire_time)
    → Taken r l
    → Taken r (modify tid f l)
unfolding modify
modify-Taken r tid f l keeps same s =
    let (u, here) = s.cached in
    record {
      listed = record {
        ordered = s.listed.ordered;
        known =
            AllItems-mono _ _ l.timed_list.ordered_time_map
              (λ i p. fire_time-update_task_same tid i.tid f l.cache keeps (λ t h. same t) ∙ p)
              s.listed.known;
      };
      cached = (
        if tid == r then f u else u,
        ground (arith, fetch_task-update_task tid r f l.cache keeps),
      );
      unlisted = s.unlisted;
    }

timed_out-Taken :
    (r tid : TaskId) (call : CoreCall) (fd : Fd) (l : Loop)
    → Exists tid l
    → Taken r l
    → Yields (timed_out call fd tid l) (Taken r)
unfolding timed_out core_call TaskList.erase
timed_out-Taken r tid call fd l (t, e) s =
    let l1 =
      core_call call
        (record l { timed_list = TaskList.erase (some t) fd event_read l.timed_list }) in
    let s1 : Taken r l1 = record {
      listed = record {
        ordered = map_erase-Above (item_of t) 0 l.timed_list.ordered_time_map s.listed.ordered;
        known = map_erase-AllItems _ (item_of t) l.timed_list.ordered_time_map s.listed.known;
      };
      cached = s.cached;
      unlisted = map_erase-AllItems _ (item_of t) l.timed_list.ordered_time_map s.unlisted;
    } in
    elim (Bool-cases t.cancelled) [
      | inl c ↦ (
        modify tid (λ u. record u { signal = broken }) l1,
        rw (e, c),
        modify-Taken r tid _ l1 (λ u. refl) (λ u. refl) s1,
      )
      | inr c ↦ (l1, rw (e, c), s1)
    ]

run_handler-Taken :
    (r : TaskId) (w : Handler) (l : Loop)
    → HandlerExists w l
    → Taken r l
    → Yields (run_handler w l) (Taken r)
unfolding run_handler
run_handler-Taken r no_handler l h s = (l, refl, s)
run_handler-Taken r (read_timedout fd tid) l h s = timed_out-Taken r tid _ fd l h s
run_handler-Taken r (write_timedout fd tid) l h s = timed_out-Taken r tid _ fd l h s

-- The entry at the head of the list, taken out.
fetched-Taken :
    (l : Loop) (e : Entry Handler) (rest : List (Entry Handler))
    → l.timed_list.ordered_time_map ≡ e ∷ rest
    → Listed l
    → Taken e.item.tid (record l { timed_list = record l.timed_list { ordered_time_map = rest } })
unfolding fire_time
fetched-Taken l e rest h v =
    let ordered = subst Order.IsOrdered h v.ordered in
    let known = subst (Known l.cache) h v.known in
    record {
      listed = record {
        ordered = Order.Above-mono 0 (suc e.item.next_fire_time) rest (omega arith) ordered.1;
        known = known.1;
      };
      cached = elim (Option-cases (fetch_task e.item.tid l.cache)) [
        | inl n ↦ absurd (ground arith)
        | inr c ↦ c
      ];
      unlisted = Agrees-Unlisted e.item (suc e.item.next_fire_time) rest (omega arith) ordered.1 (
          AllItems-mono _ _ rest
            (λ i p same.
              let q : fire_time e.item.tid l.cache ≡ some i.next_fire_time =
                subst (λ x. fire_time x l.cache ≡ some i.next_fire_time) same p in
              ground arith)
            known.1);
    }

-- Once the task is back in main.
data Back (r : TaskId) (l : Loop) : Type 0 where
  over : Taken r l → Back r l
  waits :
      Listed l
      → (t : Task) → fetch_task r l.cache ≡ some t
      → t.status ≡ TaskStatus.paused
      → Back r l

swap_out_keeps : (u : Task) → (swap_out u).tid ≡ u.tid
unfolding swap_out reset_task
swap_out_keeps u = ground arith

swap_out_paused : (u : Task) → u.status ≡ TaskStatus.paused → swap_out u ≡ u
unfolding swap_out
swap_out_paused u p = rw p

module _ (r : TaskId) (l : Loop) where
  -- The loop after the switch back.
  abbrev back : Loop
  back = modify r swap_out (record l { running_task = none })

  returned-Back : InSlice r l → Back r back
  unfolding modify
  returned-Back s =
      let (u, here) = s.cached in
      over (record {
        listed = record {
          ordered = s.listed.ordered;
          known =
              AllItems-mono _ _ l.timed_list.ordered_time_map
                (λ i p. fire_time-update_task_ne r i.tid swap_out l.cache swap_out_keeps p.1 ∙ p.0)
                (AllItems-both _ _ l.timed_list.ordered_time_map s.listed.known s.unlisted);
        };
        cached = (
          swap_out u,
          ground (arith, fetch_task-update_task r r swap_out l.cache swap_out_keeps),
        );
        unlisted = s.unlisted;
      })

  switched-Back : Swapped r l → Back r back
  unfolding modify
  switched-Back s =
      let (u, here, paused) = s.waiting in
      waits
        (record {
          ordered = s.listed.ordered;
          known =
              AllItems-mono _ _ l.timed_list.ordered_time_map
                (λ i p.
                  fire_time-update_task_same r i.tid swap_out l.cache swap_out_keeps (λ t h.
                    let same : u ≡ t = cc in
                    ap (λ (x : Task). x.next_fire_time)
                      (swap_out_paused t
                        (subst (λ (x : Task). x.status ≡ TaskStatus.paused) same paused)))
                  ∙ p)
                s.listed.known;
        })
        u
        (ground (
          arith,
          fetch_task-update_task r r swap_out l.cache swap_out_keeps,
          swap_out_paused u paused,
        ))
        paused

  back-Back : Stops r l → Back r back
  back-Back (returned s) = returned-Back s
  back-Back (switched s) = switched-Back s

module _ (slice : Loop → Option Loop) (r : TaskId)
    (works : (l : Loop) → InSlice r l → Yields (slice l) (Stops r)) where
  swap_to_task-Back : (l : Loop) → Taken r l → Yields (swap_to_task slice r l) (Back r)
  unfolding swap_to_task swap_in
  swap_to_task-Back l s =
      let (t, here) = s.cached in
      let l1 = modify r swap_in (record l { running_task = some r }) in
      let s1 = modify-Taken r r swap_in l (λ u. refl) (λ u. refl) s in
      let (l2, e, stops) = works l1 (
        unfold modify in
        record {
          listed = record { ordered = s1.listed.ordered; known = s1.listed.known };
          current = refl;
          cached = s1.cached;
          unlisted = s1.unlisted;
        }) in
      rw (deref_cached r l t here) (
        Yields_if _ (status_eq t.status TaskStatus.stopped) _ _ (λ _. (l, refl, over s))
          λ _. (back r l2, rw e, back-Back r l2 stops))

-- The destroyed task stood nowhere in the list.
destroy_task-Listed : (r : TaskId) (t : Task) (l : Loop) → Taken r l → Listed (destroy_task r t l)
unfolding fire_time fetch_task destroy_task
destroy_task-Listed r t l s = record {
  ordered = s.listed.ordered;
  known =
      AllItems-mono _ _ l.timed_list.ordered_time_map
        (λ i p. let n : i.tid ≢ r = p.1 in ground (arith, find_task-remove_task r i.tid l.cache))
        (AllItems-both _ _ l.timed_list.ordered_time_map s.listed.known s.unlisted);
}

settle_by-Listed :
    (st : TaskStatus) (r : TaskId) (t : Task) (l : Loop)
    → fetch_task r l.cache ≡ some t
    → Taken r l
    → Yields (settle_by st r t l) Listed
unfolding settle_by
settle_by-Listed TaskStatus.stopped r t l h s =
    (destroy_task r t l, refl, destroy_task-Listed r t l s)
settle_by-Listed TaskStatus.pending r t l h s =
    let (l', e, (v, _)) =
      insert_timed-Listed r l t h s.listed no_handler no_fd event_read s.unlisted in
    (l', e, v)
settle_by-Listed TaskStatus.running r t l h s = (l, refl, s.listed)
settle_by-Listed TaskStatus.paused r t l h s = (l, refl, s.listed)

settle-Listed : (r : TaskId) (l : Loop) → Back r l → Yields (settle r l) Listed
unfolding settle settle_by
settle-Listed r l (over s) =
    let (t, here) = s.cached in
    rw (deref_cached r l t here) (unfold settle_by in settle_by-Listed t.status r t l here s)
settle-Listed r l (waits v t here paused) = (l, rw (deref_cached r l t here, paused), v)

-- If list and cache agree, the list is not empty, the handler of its first entry points to a task
-- object, and the code of the task ends as `Stops` says, then one round of main succeeds: no
-- pointer is null, and list and cache agree afterwards.
pub run_one-Listed :
    (slice : Loop → Option Loop) (l : Loop) (e : Entry Handler) (rest : List (Entry Handler))
    → l.timed_list.ordered_time_map ≡ e ∷ rest
    → Listed l
    → HandlerExists e.on_time l
    → ((l' : Loop) → InSlice e.item.tid l' → Yields (slice l') (Stops e.item.tid))
    → Yields (run_one slice l) Listed
unfolding run_one TaskList.fetch
run_one-Listed slice l e rest h v x works =
    let l0 = record l { timed_list = record l.timed_list { ordered_time_map = rest } } in
    let (l1, e1, s1) =
      run_handler-Taken e.item.tid e.on_time l0 (HandlerExists-timed_list e.on_time l _ x)
        (fetched-Taken l e rest h v) in
    let (l2, e2, b) = swap_to_task-Back slice e.item.tid works l1 s1 in
    let (l3, e3, v3) = settle-Listed e.item.tid l2 b in (l3, rw (h, e1, s1.cached.1, e2) e3, v3)
