-- ===== src/Task/Loop/Invariant.antt =====
-- The timed list and the cache agree: every listed task is cached, and fires at the time that its
-- context says.
use libpeco.Base.{
  false, List, Option, none, some, ◌≡◌, ◌≢◌, refl, sym, subst, ◌∙◌, arith, ◌==◌, if◌then◌else◌,
  Bool-cases, inl, inr, Option-cases, ==→eq, Yields,
}
use libpeco.Task.Types.{TaskId, Time, Fd, Task, EventType, event_read, no_fd}
use libpeco.Task.TaskList
use libpeco.Task.TaskList.{Item, Entry, item_of, map_find, map_assign, map_erase_at, TaskList}
use libpeco.Task.TaskList.Order.{IsOrdered, map_assign-Above, map_erase_at-Above}
use libpeco.Task.TaskList.Items.{
  AllItems, Unlisted, Agrees, AllItems-mono, AllItems-both, map_assign-AllItems,
  map_erase_at-AllItems, map_erase_at-Unlisted, map_find-none-Unlisted,
}
use libpeco.Task.Cache.{fetch_task, update_task}
use libpeco.Task.Cache.Laws.{find_task-tid, find_task-update_task, fetch_task-some}
use libpeco.Task.Loop.{Loop, Handler, deref, modify, insert_timed, replace_timed}

-- The time at which a cached task fires.
unfoldable pub fire_time : TaskId → List Task → Option Time
fire_time tid c = elim (fetch_task tid c) [ none ↦ none | some t ↦ some t.next_fire_time ]

abbrev pub Known : List Task → List (Entry Handler) → Type 0
Known c = AllItems (λ i. fire_time i.tid c ≡ some i.next_fire_time)

pub record Listed (l : Loop) : Type 0 where
  pub ordered : IsOrdered l.timed_list.ordered_time_map
  pub known : Known l.cache l.timed_list.ordered_time_map

abbrev pub IsCached : TaskId → Loop → Type 0
IsCached tid l = (t : Task) × (fetch_task tid l.cache ≡ some t)

pub fetch_task-update_task :
    (tid a : TaskId) (f : Task → Task) (c : List Task)
    → ((t : Task) → (f t).tid ≡ t.tid)
    → fetch_task a (update_task tid f c)
      ≡ elim (fetch_task a c) [ none ↦ none | some t ↦ some (if tid == a then f t else t) ]
unfolding fetch_task
fetch_task-update_task tid a f c h = ground (arith, find_task-update_task tid a f c h)

pub fire_time-update_task_ne :
    (tid a : TaskId) (f : Task → Task) (c : List Task)
    → ((t : Task) → (f t).tid ≡ t.tid)
    → a ≢ tid
    → fire_time a (update_task tid f c) ≡ fire_time a c
unfolding fire_time
fire_time-update_task_ne tid a f c h n = ground (arith, fetch_task-update_task tid a f c h)

pub fire_time-update_task_same :
    (tid a : TaskId) (f : Task → Task) (c : List Task)
    → ((t : Task) → (f t).tid ≡ t.tid)
    → ((t : Task) → fetch_task tid c ≡ some t → (f t).next_fire_time ≡ t.next_fire_time)
    → fire_time a (update_task tid f c) ≡ fire_time a c
unfolding fire_time
fire_time-update_task_same tid a f c h k = elim (Option-cases (fetch_task a c)) [
  | inl e ↦ ground (arith, fetch_task-update_task tid a f c h)
  | inr (t, e) ↦ elim (Bool-cases (tid == a)) [
    | inl same ↦
        let known : fetch_task tid c ≡ some t = rw (==→eq tid a same) e in
        ground (arith, fetch_task-update_task tid a f c h, k t known)
    | inr other ↦ ground (arith, fetch_task-update_task tid a f c h)
  ]
]

-- A new key in the list, for a task that was not listed and whose time has just been set.
pub relist :
    (c c' : List Task) (m : List (Entry Handler)) (k : Item) (w : Handler)
    → Known c m
    → Unlisted k.tid m
    → fire_time k.tid c' ≡ some k.next_fire_time
    → ((a : TaskId) → a ≢ k.tid → fire_time a c' ≡ fire_time a c)
    → Known c' (map_assign k w m)
relist c c' m k w h u e s =
    map_assign-AllItems (λ i. fire_time i.tid c' ≡ some i.next_fire_time) k w m e
      (AllItems-mono _ _ m (λ i p. s i.tid p.1 ∙ p.0) (AllItems-both _ _ m h u))

-- What a call on one task leaves of the others.
pub record Frame (tid : TaskId) (l l' : Loop) : Type 0 where
  pub running : l'.running_task ≡ l.running_task
  pub cached : (a : TaskId) → IsCached a l → IsCached a l'
  pub unlisted :
      (a : TaskId)
      → a ≢ tid
      → Unlisted a l.timed_list.ordered_time_map
      → Unlisted a l'.timed_list.ordered_time_map

pub deref_cached :
    (tid : TaskId) (l : Loop) (t : Task) → fetch_task tid l.cache ≡ some t → deref tid l ≡ some t
unfolding deref
deref_cached tid l t h = rw ((fetch_task-some tid l.cache t h).0, deref)

pub insert_timed_lem :
    (tid : TaskId) (w : Handler) (fd : Fd) (ev : EventType) (l : Loop) (t : Task)
    → fetch_task tid l.cache ≡ some t
    → insert_timed tid w fd ev l
      ≡ some (record l { timed_list = TaskList.insert (some t) w fd ev l.timed_list })
unfolding insert_timed
insert_timed_lem tid w fd ev l t h = rw (deref_cached tid l t h)

module _ (tid : TaskId) (f : Task → Task) (l : Loop) (t : Task)
    (keeps : (u : Task) → (f u).tid ≡ u.tid) (here : fetch_task tid l.cache ≡ some t) where
  pub modified : fetch_task tid (modify tid f l).cache ≡ some (f t)
  unfolding modify
  modified = ground (arith, fetch_task-update_task tid tid f l.cache keeps)

  pub modified-tid : (f t).tid ≡ tid
  modified-tid = keeps t ∙ find_task-tid tid l.cache t (fetch_task-some tid l.cache t here).0

  pub IsCached-modify : (a : TaskId) → IsCached a l → IsCached a (modify tid f l)
  unfolding modify
  IsCached-modify a (u, e) =
      (if tid == a then f u else u, ground (arith, fetch_task-update_task tid a f l.cache keeps))

  pub Frame-modify : Frame tid l (modify tid f l)
  unfolding modify
  Frame-modify = record {
    running = refl;
    cached = unfold modify in IsCached-modify;
    unlisted = λ a n u. u;
  }

  fire_time_modified : fire_time tid (modify tid f l).cache ≡ some (f t).next_fire_time
  unfolding fire_time
  fire_time_modified = rw (modified, fire_time)

  -- A write that leaves the fire time as it was.
  pub modify-Listed : (f t).next_fire_time ≡ t.next_fire_time → Listed l → Listed (modify tid f l)
  unfolding modify
  modify-Listed e v = record {
    ordered = v.ordered;
    known =
        AllItems-mono _ _ l.timed_list.ordered_time_map
          (λ i p.
            fire_time-update_task_same tid i.tid f l.cache keeps
              (λ u h. let same : u ≡ t = cc in rw same e)
            ∙ p)
          v.known;
  }

  -- The loop once the task is written to and put into the list.
  abbrev pub scheduled : Handler → Fd → EventType → Loop
  scheduled w fd ev = record (modify tid f l) {
    timed_list = TaskList.insert (some (f t)) w fd ev (modify tid f l).timed_list;
  }

  pub scheduled-Listed :
      (w : Handler) (fd : Fd) (ev : EventType)
      → Listed l
      → Unlisted tid l.timed_list.ordered_time_map
      → Listed (scheduled w fd ev) × Frame tid l (scheduled w fd ev)
  unfolding TaskList.insert modify
  scheduled-Listed w fd ev v u = (
    record {
      ordered = map_assign-Above (item_of (f t)) w 0 _ (omega arith) v.ordered;
      known =
          relist l.cache (update_task tid f l.cache) l.timed_list.ordered_time_map (item_of (f t)) w
            v.known (subst (λ x. Unlisted x l.timed_list.ordered_time_map) (sym modified-tid) u)
            (subst (λ x. fire_time x (update_task tid f l.cache) ≡ some (f t).next_fire_time)
              (sym modified-tid) (unfold modify in fire_time_modified))
            (λ a n. fire_time-update_task_ne tid a f l.cache keeps (λ e. n (e ∙ sym modified-tid)));
    },
    record {
      running = refl;
      cached = IsCached-modify;
      unlisted = λ a n x.
          map_assign-AllItems (λ i. i.tid ≢ a) (item_of (f t)) w l.timed_list.ordered_time_map
            (λ e. n (sym e ∙ modified-tid)) x;
    },
  )

  -- A task that is not listed is written to and put into the list.
  pub schedule :
      (w : Handler) (fd : Fd) (ev : EventType)
      → Listed l
      → Unlisted tid l.timed_list.ordered_time_map
      → Yields (insert_timed tid w fd ev (modify tid f l)) (λ l'. Listed l' × Frame tid l l')
  schedule w fd ev v u = (
    scheduled w fd ev,
    insert_timed_lem tid w fd ev (modify tid f l) (f t) modified,
    scheduled-Listed w fd ev v u,
  )

pub Frame-refl : (tid : TaskId) (l : Loop) → Frame tid l l
Frame-refl tid l = record { running = refl; cached = λ a h. h; unlisted = λ a n u. u }

pub Frame-trans : (tid : TaskId) (l m n : Loop) → Frame tid l m → Frame tid m n → Frame tid l n
Frame-trans tid l m n a b = record {
  running = b.running ∙ a.running;
  cached = λ x h. b.cached x (a.cached x h);
  unlisted = λ x k h. b.unlisted x k (a.unlisted x k h);
}

-- A listed task stands at the time that its context says.
pub Known-Agrees :
    (tid : TaskId) (l : Loop) (t : Task)
    → Listed l
    → fetch_task tid l.cache ≡ some t
    → Agrees (item_of t) l.timed_list.ordered_time_map
unfolding fire_time
Known-Agrees tid l t v h =
    let own : t.tid ≡ tid = find_task-tid tid l.cache t (fetch_task-some tid l.cache t h).0 in
    AllItems-mono _ _ l.timed_list.ordered_time_map
      (λ i p e.
        let found : fetch_task i.tid l.cache ≡ some t =
          subst (λ x. fetch_task x l.cache ≡ some t) (sym (e ∙ own)) h in
        ground arith)
      v.known

module _ (tid : TaskId) (l : Loop) (t : Task) (here : fetch_task tid l.cache ≡ some t)
    (v : Listed l) where
  pub not_has-Unlisted :
      TaskList.has t l.timed_list ≡ false → Unlisted tid l.timed_list.ordered_time_map
  unfolding TaskList.has
  not_has-Unlisted h =
      let own : t.tid ≡ tid = find_task-tid tid l.cache t (fetch_task-some tid l.cache t here).0 in
      subst (λ x. Unlisted x l.timed_list.ordered_time_map) own
        (map_find-none-Unlisted (item_of t) 0 l.timed_list.ordered_time_map v.ordered
          (Known-Agrees tid l t v here) (ground arith))

  -- The list without the entry that replace_time takes out.
  abbrev cut : Loop
  cut = record l {
    timed_list = record l.timed_list {
      ordered_time_map = map_erase_at (item_of t) l.timed_list.ordered_time_map;
    };
  }

  cut-Listed : Listed cut
  cut-Listed = record {
    ordered = map_erase_at-Above (item_of t) 0 l.timed_list.ordered_time_map v.ordered;
    known = map_erase_at-AllItems _ (item_of t) l.timed_list.ordered_time_map v.known;
  }

  cut-Unlisted : Unlisted tid cut.timed_list.ordered_time_map
  cut-Unlisted =
      let own : t.tid ≡ tid = find_task-tid tid l.cache t (fetch_task-some tid l.cache t here).0 in
      subst (λ x. Unlisted x cut.timed_list.ordered_time_map) own
        (map_erase_at-Unlisted (item_of t) 0 l.timed_list.ordered_time_map v.ordered
          (Known-Agrees tid l t v here))

  cut-Frame : Frame tid l cut
  cut-Frame = record {
    running = refl;
    cached = λ a h. h;
    unlisted =
        λ a n u. map_erase_at-AllItems (λ i. i.tid ≢ a) (item_of t) l.timed_list.ordered_time_map u;
  }

  pub replace_timed-Listed :
      (now : Time) → Yields (replace_timed tid now l) (λ l'. Listed l' × Frame tid l l')
  unfolding replace_timed TaskList.replace_time
  replace_timed-Listed now =
      elim (Option-cases (map_find (item_of t) l.timed_list.ordered_time_map)) [
        | inl e ↦ (
          modify tid (λ u. record u { next_fire_time = t.next_fire_time }) l,
          rw (deref_cached tid l t here, e, TaskList.replace_time),
          (
            modify-Listed tid _ l t (λ u. refl) here refl v,
            Frame-modify tid _ l t (λ u. refl) here,
          ),
        )
        | inr (e, h) ↦
            let good =
              scheduled-Listed tid (λ u. record u { next_fire_time = now }) cut t (λ u. refl) here
                e.on_time no_fd event_read cut-Listed cut-Unlisted in
            (
              modify tid (λ u. record u { next_fire_time = now })
                  (record cut {
                    timed_list = record cut.timed_list {
                      ordered_time_map =
                          map_assign (record { tid = t.tid; next_fire_time = now }) e.on_time
                            cut.timed_list.ordered_time_map;
                    };
                  }),
              rw (deref_cached tid l t here, h, TaskList.replace_time),
              (
                unfold modify TaskList.insert in good.0,
                Frame-trans tid l cut _ cut-Frame (unfold modify TaskList.insert in good.1),
              ),
            )
      ]

  -- The task goes into the list as it is.
  pub insert_timed-Listed :
      (w : Handler) (fd : Fd) (ev : EventType)
      → Unlisted tid l.timed_list.ordered_time_map
      → Yields (insert_timed tid w fd ev l) (λ l'. Listed l' × (l'.running_task ≡ l.running_task))
  unfolding TaskList.insert fire_time
  insert_timed-Listed w fd ev u =
      let own : t.tid ≡ tid = find_task-tid tid l.cache t (fetch_task-some tid l.cache t here).0 in
      (
        record l { timed_list = TaskList.insert (some t) w fd ev l.timed_list },
        insert_timed_lem tid w fd ev l t here,
        (
          record {
            ordered = map_assign-Above (item_of t) w 0 _ (omega arith) v.ordered;
            known =
                relist l.cache l.cache l.timed_list.ordered_time_map (item_of t) w v.known
                  (subst (λ x. Unlisted x l.timed_list.ordered_time_map) (sym own) u)
                  (let found : fetch_task t.tid l.cache ≡ some t =
                      subst (λ x. fetch_task x l.cache ≡ some t) (sym own) here in
                    rw (found, fire_time))
                  (λ a n. refl);
          },
          refl,
        ),
      )
