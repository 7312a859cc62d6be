-- ===== src/Task/Main/Timeout.antt =====
-- What the two timeout handlers leave of the fd map.
use libpeco.Base.{some, ◌≡◌, ◌≢◌, refl, if◌then◌else◌, Bool-cases, inl, inr, Yields, ==_self}
use libpeco.Task.Types.{
  TaskId, Fd, Task, broken, EventType, event_read, event_write, event_eq, no_fd,
}
use libpeco.Task.TaskList
use libpeco.Task.TaskList.FdCache.{without, search-erase}
use libpeco.Task.Loop.{
  Loop, read_timedout, write_timedout, CoreCall, del_read_event, del_write_event, deref, modify,
  core_call,
}
use libpeco.Task.Main.{timed_out, run_handler}

timed_out-search :
    (call : CoreCall) (fd : Fd) (ev : EventType) (t : Task) (tid : TaskId) (l : Loop)
    → fd ≢ no_fd
    → deref tid l ≡ some t
    → Yields (timed_out call fd tid l) (λ l'. TaskList.search fd ev l'.timed_list ≡ (
        if event_eq event_read ev
        then without t.tid (TaskList.search fd ev l.timed_list)
        else TaskList.search fd ev l.timed_list))
unfolding timed_out core_call modify
timed_out-search call fd ev t tid l n e =
    let l1 =
      core_call call
        (record l { timed_list = TaskList.erase (some t) fd event_read l.timed_list }) in
    let searched : TaskList.search fd ev l1.timed_list ≡ (
        if event_eq event_read ev
        then without t.tid (TaskList.search fd ev l.timed_list)
        else TaskList.search fd ev l.timed_list) =
      rw (search-erase t fd fd event_read ev l.timed_list n, ==_self fd) refl in
    elim (Bool-cases t.cancelled) [
      | inl c ↦ (modify tid (λ u. record u { signal = broken }) l1, rw (e, c), searched)
      | inr c ↦ (l1, rw (e, c), searched)
    ]

-- The timeout handler of a task that waited to read takes it out of those that wait to read the
-- fd. The handler of a task that waited to write leaves everyone who waits to write the fd, the
-- task itself too, and takes it out of those that wait to read. The fd is not -1, and the task
-- exists.
pub run_handler-search :
    (fd : Fd) (tid : TaskId) (t : Task) (l : Loop)
    → fd ≢ no_fd
    → deref tid l ≡ some t
    → Yields (run_handler (read_timedout fd tid) l) (λ l'.
      TaskList.search fd event_read l'.timed_list
      ≡ without t.tid (TaskList.search fd event_read l.timed_list))
      × Yields (run_handler (write_timedout fd tid) l) (λ l'.
        TaskList.search fd event_write l'.timed_list ≡ TaskList.search fd event_write l.timed_list)
      × Yields (run_handler (write_timedout fd tid) l) (λ l'.
        TaskList.search fd event_read l'.timed_list
        ≡ without t.tid (TaskList.search fd event_read l.timed_list))
unfolding run_handler
run_handler-search fd tid t l n e = (
  timed_out-search (del_read_event fd) fd event_read t tid l n e,
  timed_out-search (del_write_event fd) fd event_write t tid l n e,
  timed_out-search (del_write_event fd) fd event_read t tid l n e,
)
