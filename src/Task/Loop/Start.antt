-- ===== src/Task/Loop/Start.antt =====
-- A new task enters the cache and the timed list, and nothing else changes.
use libpeco.Base.{true, not, none, some, ◌≡◌, ◌≢◌, refl, ◌∙◌, arith, Yields}
use libpeco.Task.Types.{TaskId, Task, TaskStatus, status_eq, event_read, no_fd, invalidate_task_id}
use libpeco.Task.TaskList.Items.{Unlisted, AllItems-mono}
use libpeco.Task.Cache.{find_task, fetch_task, put_task}
use libpeco.Task.Cache.Laws.{find_task-put_task}
use libpeco.Task.Loop.{Loop, no_handler, add_task}
use libpeco.Task.Loop.Invariant.{Listed, fire_time, Frame, Frame-trans, deref_cached, schedule}

module _ (l : Loop) (t : Task) (valid : t.tid ≢ invalidate_task_id)
    (fresh : find_task t.tid l.cache ≡ none) (v : Listed l) where
  -- The loop with the new task in its cache.
  abbrev pub started : Loop
  started = record l { cache = put_task t l.cache }

  here : fetch_task t.tid started.cache ≡ some t
  unfolding fetch_task
  here = ground (arith, find_task-put_task t t.tid l.cache)

  others : (a : TaskId) → a ≢ t.tid → fetch_task a started.cache ≡ fetch_task a l.cache
  unfolding fetch_task
  others a n = ground (arith, find_task-put_task t a l.cache)

  absent : fetch_task t.tid l.cache ≡ none
  unfolding fetch_task
  absent = ground arith

  not_listed : Unlisted t.tid l.timed_list.ordered_time_map
  unfolding fire_time
  not_listed =
      AllItems-mono _ _ l.timed_list.ordered_time_map
        (λ i p e. let gone : fetch_task i.tid l.cache ≡ none = rw e absent in ground arith) v.known

  started-Listed : Listed started
  unfolding fire_time
  started-Listed = record {
    ordered = v.ordered;
    known =
        AllItems-mono _ _ l.timed_list.ordered_time_map
          (λ i p.
            let n : i.tid ≢ t.tid =
              λ e. let gone : fetch_task i.tid l.cache ≡ none = rw e absent in ground arith in
            rw (others i.tid n, fire_time) p)
          v.known;
  }

  started-Frame : Frame t.tid l started
  started-Frame = record {
    running = refl;
    cached = λ a c.
        let n : a ≢ t.tid = λ e.
          let gone : fetch_task a l.cache ≡ none = rw e absent in
          let found : fetch_task a l.cache ≡ some c.0 = c.1 in ground arith in
        (c.0, others a n ∙ c.1);
    unlisted = λ a n u. u;
  }

  pub add_task-Listed :
      t.status ≡ TaskStatus.pending
      → Yields (add_task (some t.tid) started) (λ l'. Listed l' × Frame t.tid l l')
  unfolding add_task
  add_task-Listed p =
      let active : not (status_eq t.status TaskStatus.stopped) ≡ true = rw p in
      let (l2, e, (v2, frame2)) =
        schedule t.tid (λ u. record u { status = TaskStatus.paused }) started t (λ u. refl) here
          no_handler no_fd event_read started-Listed not_listed in
      (
        l2,
        rw (deref_cached t.tid started t here, active) e,
        (v2, Frame-trans t.tid l started l2 started-Frame frame2),
      )
