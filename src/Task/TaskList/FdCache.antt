-- ===== src/Task/TaskList/FdCache.antt =====
-- The fd map: which tasks wait for an event on an fd.
use libpeco.Base.{
  ◌≤◌, ◌<◌, true, false, ◌&&◌, List, [], ◌∷◌, ◌++◌, Option, some, ◌≡◌, ◌≢◌, refl, arith, Bool-cases,
  ◌⊎◌, ==→eq, inl, inr, ◌==◌, if◌then◌else◌,
}
use libpeco.Task.Types.{TaskId, Fd, Task, EventType, event_read, event_write, event_eq, no_fd}
use libpeco.Task.TaskList.{
  FdEntry, TaskList, multimap_emplace, multimap_erase, search_list, erase_entries, insert, erase,
  erase_fd, search, search_all,
}

-- The fds do not fall along the list, as in a multimap.
abbrev pub FdSorted : Fd → List FdEntry → Type 0
FdSorted lo [] = Unit {0}
FdSorted lo (e ∷ l) = (lo ≤ e.fd) × FdSorted e.fd l

multimap_emplace-FdSorted :
    (x : FdEntry) (lo : Fd) (l : List FdEntry)
    → lo ≤ x.fd
    → FdSorted lo l
    → FdSorted lo (multimap_emplace x l)
unfolding multimap_emplace
multimap_emplace-FdSorted x lo [] h s = (h, tt)
multimap_emplace-FdSorted x lo (e ∷ l) h s = ground (arith, multimap_emplace-FdSorted x e.fd l)

-- Behind a greater fd nothing is found.
search_list_beyond :
    (fd : Fd) (ev : EventType) (lo : Fd) (l : List FdEntry)
    → FdSorted lo l
    → fd < lo
    → search_list fd ev l ≡ []
unfolding search_list
search_list_beyond fd ev lo [] s h = refl
search_list_beyond fd ev lo (e ∷ l) s h = ground (arith, search_list_beyond fd ev e.fd l)

search_list-multimap_emplace :
    (fd : Fd) (ev : EventType) (x : FdEntry) (lo : Fd) (l : List FdEntry)
    → FdSorted lo l
    → search_list fd ev (multimap_emplace x l) ≡ (
        if x.fd == fd && event_eq x.event_type ev
        then search_list fd ev l ++ x.tid ∷ []
        else search_list fd ev l)
unfolding search_list multimap_emplace
search_list-multimap_emplace fd ev x lo [] s = ground arith
search_list-multimap_emplace fd ev x lo (e ∷ l) s =
    ground
      (arith, search_list-multimap_emplace fd ev x e.fd l s.1, search_list_beyond fd ev e.fd l s.1)

-- The ids other than one.
unfoldable pub without : TaskId → List TaskId → List TaskId
without tid [] = []
without tid (t ∷ l) = if t == tid then without tid l else t ∷ without tid l

search_list-multimap_erase :
    (fd : Fd) (ev : EventType) (tid : TaskId) (l : List FdEntry)
    → search_list fd ev (multimap_erase fd ev tid l) ≡ without tid (search_list fd ev l)
unfolding search_list multimap_erase without
search_list-multimap_erase fd ev tid [] = refl
search_list-multimap_erase fd ev tid (e ∷ l) =
    ground (arith, search_list-multimap_erase fd ev tid l)

event_eq_sound : (a b : EventType) → event_eq a b ≡ true → a ≡ b
event_eq_sound event_read event_read h = refl
event_eq_sound event_write event_write h = refl
event_eq_sound event_read event_write h = cc
event_eq_sound event_write event_read h = cc

search_list-multimap_erase_ne :
    (fd fd' : Fd) (ev ev' : EventType) (tid : TaskId) (l : List FdEntry)
    → (fd == fd' && event_eq ev ev') ≡ false
    → search_list fd' ev' (multimap_erase fd ev tid l) ≡ search_list fd' ev' l
unfolding search_list multimap_erase
search_list-multimap_erase_ne fd fd' ev ev' tid [] h = refl
search_list-multimap_erase_ne fd fd' ev ev' tid (e ∷ l) h =
    ground
      (arith, search_list-multimap_erase_ne fd fd' ev ev' tid l h, event_eq_sound e.event_type ev)

search_list-erase_entries :
    (fd fd' : Fd) (ev : EventType) (l : List FdEntry)
    → search_list fd' ev (erase_entries fd l) ≡ (if fd == fd' then [] else search_list fd' ev l)
unfolding search_list erase_entries
search_list-erase_entries fd fd' ev [] = ground arith
search_list-erase_entries fd fd' ev (e ∷ l) = ground (arith, search_list-erase_entries fd fd' ev l)

module _ {W : Type 0} where
  -- Inserting a task with an fd, which is not -1, keeps the fd map sorted, appends the task to
  -- those that wait for that event on that fd, and changes no other search.
  pub search-insert :
      (t : Task) (w : W) (fd fd' : Fd) (ev ev' : EventType) (l : TaskList W)
      → fd ≢ no_fd
      → FdSorted 0 l.fd_cache_map
      → let m = insert (some t) w fd ev l in
        FdSorted 0 m.fd_cache_map
        × (search fd' ev' m ≡ (
            if fd == fd' && event_eq ev ev'
            then search fd' ev' l ++ t.tid ∷ []
            else search fd' ev' l))
  unfolding search insert
  search-insert t w fd fd' ev ev' l n s =
      let x : FdEntry = record { fd = fd; event_type = ev; tid = t.tid } in
      elim (Bool-cases (fd == no_fd)) [
        | inl e ↦ absurd (n (==→eq fd no_fd e))
        | inr e ↦ rw e (
          multimap_emplace-FdSorted x 0 l.fd_cache_map (omega arith) s,
          search_list-multimap_emplace fd' ev' x 0 l.fd_cache_map s,
        )
      ]

  -- Erasing a task with its fd and event removes that task, and no other, from the search for
  -- that event on that fd, and changes no search for another fd or event.
  pub search-erase :
      (t : Task) (fd fd' : Fd) (ev ev' : EventType) (l : TaskList W)
      → fd ≢ no_fd
      → search fd' ev' (erase (some t) fd ev l) ≡ (
          if fd == fd' && event_eq ev ev'
          then without t.tid (search fd' ev' l)
          else search fd' ev' l)
  unfolding search erase
  search-erase t fd fd' ev ev' l n = elim (Bool-cases (fd == no_fd)) [
    | inl e ↦ absurd (n (==→eq fd no_fd e))
    | inr e ↦ rw e (erased (Bool-cases (fd == fd' && event_eq ev ev')))
  ]
    where
      erased :
          ((fd == fd' && event_eq ev ev') ≡ true) ⊎ ((fd == fd' && event_eq ev ev') ≡ false)
          → search_list fd' ev' (multimap_erase fd ev t.tid l.fd_cache_map) ≡ (
              if fd == fd' && event_eq ev ev'
              then without t.tid (search_list fd' ev' l.fd_cache_map)
              else search_list fd' ev' l.fd_cache_map)
      erased (inl h) =
          ground
            (arith, event_eq_sound ev ev', search_list-multimap_erase fd ev t.tid l.fd_cache_map)
      erased (inr h) = rw h (search_list-multimap_erase_ne fd fd' ev ev' t.tid l.fd_cache_map h)

  -- Erasing an fd, which is not -1, leaves nobody waiting on it for any event, and changes no
  -- search for another fd.
  pub search_all-erase_fd :
      (live : TaskId → Option Task) (fd fd' : Fd) (l : TaskList W)
      → fd ≢ no_fd
      → search_all fd' (erase_fd live fd l) ≡ (if fd == fd' then [] else search_all fd' l)
  unfolding search_all search erase_fd
  search_all-erase_fd live fd fd' l n = elim (Bool-cases (fd == no_fd)) [
    | inl e ↦ absurd (n (==→eq fd no_fd e))
    | inr e ↦
        rw
          (
            e,
            search_list-erase_entries fd fd' event_read l.fd_cache_map,
            search_list-erase_entries fd fd' event_write l.fd_cache_map,
          )
          (ground arith)
  ]
