-- ===== src/Task/LoopCore/Empty.antt =====
-- The cache of the Linux core never gets an entry.
use libpeco.Base.{Bool, List, [], ◌∷◌, ◌++◌, none, some, ◌≡◌, refl, ◌∙◌, if◌then◌else◌}
use libpeco.Task.Types.{Fd, event_read, event_write}
use libpeco.Task.LoopCore.{
  Core, init, find_event, add_read_event, add_write_event, del_read_event, del_write_event, Report,
  broken_fd, ready, Handled, on_error, on_event, process,
}

-- One operation of the core that comes to its end.
pub data Step : Core → Core → Type 0 where
  adds_read :
      {c d : Core} (answer b : Bool) (fd : Fd) → add_read_event answer fd c ≡ some (b, d) → Step c d
  adds_write :
      {c d : Core} (answer b : Bool) (fd : Fd)
      → add_write_event answer fd c ≡ some (b, d)
      → Step c d
  dels_read : {c : Core} (fd : Fd) → Step c (del_read_event fd c)
  dels_write : {c : Core} (fd : Fd) → Step c (del_write_event fd c)
  reports :
      {c d : Core} (fd : Fd) (p : Report) (o : List Handled)
      → process fd p c ≡ some (o, d)
      → Step c d

-- Any number of them.
pub data Steps (c : Core) : Core → Type 0 where
  done : Steps c c
  then_step : {d e : Core} → Steps c d → Step d e → Steps c e

module _ (c : Core) (h : c.cached ≡ []) where
  missing : (fd : Fd) → find_event fd c.cached ≡ none
  unfolding find_event
  missing fd = rw h refl

  add_read-none : (answer : Bool) (fd : Fd) → add_read_event answer fd c ≡ none
  unfolding add_read_event
  add_read-none answer fd = rw (missing fd, add_read_event) refl

  add_write-none : (answer : Bool) (fd : Fd) → add_write_event answer fd c ≡ none
  unfolding add_write_event
  add_write-none answer fd = rw (missing fd, add_write_event) refl

  del_read-same : (fd : Fd) → del_read_event fd c ≡ c
  unfolding del_read_event
  del_read-same fd = rw (missing fd, del_read_event) refl

  del_write-same : (fd : Fd) → del_write_event fd c ≡ c
  unfolding del_write_event
  del_write-same fd = rw (missing fd, del_write_event) refl

  process-same : (fd : Fd) (p : Report) → (o : List Handled) × (process fd p c ≡ some (o, c))
  unfolding process
  process-same fd broken_fd = (on_error fd ∷ [], rw (missing fd, process) refl)
  process-same fd (ready r w) = (
    (if r then on_event fd event_read ∷ [] else [])
        ++ (if w then on_event fd event_write ∷ [] else []),
    rw (missing fd, process) refl,
  )

Step-same : (c d : Core) → Step c d → c.cached ≡ [] → d ≡ c
Step-same c d (adds_read answer b fd e) h = let stuck = add_read-none c h answer fd in absurd (cc)
Step-same c d (adds_write answer b fd e) h = let stuck = add_write-none c h answer fd in absurd (cc)
Step-same c d (dels_read fd) h = del_read-same c h fd
Step-same c d (dels_write fd) h = del_write-same c h fd
Step-same c d (reports fd p o e) h = let (o', e') = process-same c h fd p in cc

Steps-same : (c d : Core) → Steps c d → c.cached ≡ [] → d ≡ c
Steps-same c d done h = refl
Steps-same c d (then_step {d = m} s t) h =
    let same = Steps-same c m s h in Step-same m d t (rw same h) ∙ same

-- From the core that init makes, every sequence of additions, removals and reports that comes to
-- its end leaves the cache empty and has made no call of epoll_ctl; and adding the read or the
-- write event of any fd then dereferences end().
pub Steps-init :
    (d : Core) (answer : Bool) (fd : Fd)
    → Steps init d
    → (d ≡ init) × (add_read_event answer fd d ≡ none) × (add_write_event answer fd d ≡ none)
unfolding init
Steps-init d answer fd s =
    let same : d ≡ init = Steps-same init d s refl in
    let no_entry : d.cached ≡ [] = rw same refl in
    (same, add_read-none d no_entry answer fd, add_write-none d no_entry answer fd)
