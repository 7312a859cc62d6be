-- ===== src/Task/TaskList.antt =====
-- src/task/impl/tasklist.hxx and tasklist.cpp. `W` is the type of the handlers. A std::map is the
-- list of its entries in the order of its iterators, and a search walks to the first entry that
-- is not less than the key, as the standard defines lower_bound; a multimap is a list as well.
pub mod Order
pub mod Insert
pub mod Items
pub mod Replace
pub mod Collision
pub mod FdCache
mod Tests
use libpeco.Base.{
  ℕ, suc, ◌+◌, Bool, true, false, not, ◌&&◌, List, [], ◌∷◌, ◌++◌, map, Option, none, some, length,
  ltb, ◌==◌, if◌then◌else◌,
}
use libpeco.Task.Types.{TaskId, Time, Fd, Task, EventType, event_read, event_write, event_eq, no_fd}

-- cache_item_t, a key of the ordered map.
pub record Item : Type 0 where
  pub tid : TaskId
  pub next_fire_time : Time

-- A key of the ordered map with its handler.
pub record Entry (W : Type 0) : Type 0 where
  pub item : Item
  pub on_time : W

-- cache_fd_t, a key of the fd map, with the task it maps to.
pub record FdEntry : Type 0 where
  pub fd : Fd
  pub event_type : EventType
  pub tid : TaskId

pub record TaskList (W : Type 0) : Type 0 where
  pub ordered_time_map : List (Entry W)
  pub fd_cache_map : List FdEntry

-- cache_item_t(t)
abbrev pub item_of : Task → Item
item_of t = record { tid = t.tid; next_fire_time = t.next_fire_time }

-- cache_item_t::operator <
unfoldable pub less : Item → Item → Bool
less a b = not (a.tid == b.tid) && ltb a.next_fire_time b.next_fire_time

module _ {W : Type 0} where
  -- std::map::find: the first entry that is not less than the key, unless the key is less than it.
  unfoldable pub map_find : Item → List (Entry W) → Option (Entry W)
  map_find k [] = none
  map_find k (e ∷ l) =
      if less e.item k then map_find k l else if less k e.item then none else some e

  -- `ordered_time_map_[k] = w`: an entry found keeps its key and takes the handler.
  unfoldable pub map_assign : Item → W → List (Entry W) → List (Entry W)
  map_assign k w [] = record { item = k; on_time = w } ∷ []
  map_assign k w (e ∷ l) =
      if less e.item k
      then e ∷ map_assign k w l
      else if less k e.item
      then record { item = k; on_time = w } ∷ e ∷ l
      else record { item = e.item; on_time = w } ∷ l

  -- std::map::erase of the position that `map_find` returned.
  unfoldable pub map_erase_at : Item → List (Entry W) → List (Entry W)
  map_erase_at k [] = []
  map_erase_at k (e ∷ l) = if less e.item k then e ∷ map_erase_at k l else l

  -- The end of the range that `erase` removes.
  unfoldable pub drop_equal : Item → List (Entry W) → List (Entry W)
  drop_equal k [] = []
  drop_equal k (e ∷ l) = if less k e.item then e ∷ l else drop_equal k l

  -- std::map::erase of a key: its equal_range.
  unfoldable pub map_erase : Item → List (Entry W) → List (Entry W)
  map_erase k [] = []
  map_erase k (e ∷ l) = if less e.item k then e ∷ map_erase k l else drop_equal k (e ∷ l)

-- std::multimap::emplace: behind the entries whose fd is not greater.
unfoldable pub multimap_emplace : FdEntry → List FdEntry → List FdEntry
multimap_emplace x [] = x ∷ []
multimap_emplace x (e ∷ l) = if ltb x.fd e.fd then x ∷ e ∷ l else e ∷ multimap_emplace x l

-- The loop of `erase` over the range of the fd.
unfoldable pub multimap_erase : Fd → EventType → TaskId → List FdEntry → List FdEntry
multimap_erase fd ev tid [] = []
multimap_erase fd ev tid (e ∷ l) =
    if e.fd == fd && event_eq e.event_type ev && e.tid == tid
    then multimap_erase fd ev tid l
    else e ∷ multimap_erase fd ev tid l

unfoldable pub search_list : Fd → EventType → List FdEntry → List TaskId
search_list fd ev [] = []
search_list fd ev (e ∷ l) =
    if e.fd == fd && event_eq e.event_type ev
    then e.tid ∷ search_list fd ev l
    else search_list fd ev l

unfoldable pub erase_entries : Fd → List FdEntry → List FdEntry
erase_entries fd [] = []
erase_entries fd (e ∷ l) = if e.fd == fd then erase_entries fd l else e ∷ erase_entries fd l

module _ {W : Type 0} where
  pub empty : TaskList W
  empty = record { ordered_time_map = []; fd_cache_map = [] }

  -- `begin()` of an empty map is read by no caller; there is no time to return then.
  unfoldable pub nearest_time : TaskList W → Option Time
  nearest_time t = elim t.ordered_time_map [ [] ↦ none | e ∷ l ↦ some e.item.next_fire_time ]

  -- result_type with the list that is left.
  unfoldable pub fetch : TaskList W → Option (TaskId × W × TaskList W)
  fetch t = elim t.ordered_time_map [
    | [] ↦ none
    | e ∷ l ↦ some (e.item.tid, e.on_time, record t { ordered_time_map = l })
  ]

  -- The task is a pointer, `none` for nullptr.
  unfoldable pub insert : Option Task → W → Fd → EventType → TaskList W → TaskList W
  insert none w fd ev l = l
  insert (some t) w fd ev l = record {
    ordered_time_map = map_assign (item_of t) w l.ordered_time_map;
    fd_cache_map =
        if fd == no_fd
        then l.fd_cache_map
        else multimap_emplace (record { fd = fd; event_type = ev; tid = t.tid }) l.fd_cache_map;
  }

  -- The list and the fire time that the task has now.
  unfoldable pub replace_time : Task → Time → TaskList W → TaskList W × Time
  replace_time t time l = elim (map_find (item_of t) l.ordered_time_map) [
    | none ↦ (l, t.next_fire_time)
    | some e ↦ (
      record l {
        ordered_time_map =
            map_assign (record { tid = t.tid; next_fire_time = time }) e.on_time
              (map_erase_at (item_of t) l.ordered_time_map);
      },
      time,
    )
  ]

  unfoldable pub erase : Option Task → Fd → EventType → TaskList W → TaskList W
  erase none fd ev l = l
  erase (some t) fd ev l = record {
    ordered_time_map = map_erase (item_of t) l.ordered_time_map;
    fd_cache_map =
        if fd == no_fd then l.fd_cache_map else multimap_erase fd ev t.tid l.fd_cache_map;
  }

  -- The timed entries of the tasks behind an fd, `live` being basic_task::fetch.
  unfoldable pub erase_timed :
      (TaskId → Option Task) → Fd → List FdEntry → List (Entry W) → List (Entry W)
  erase_timed live fd [] m = m
  erase_timed live fd (e ∷ l) m =
      erase_timed live fd l (
        if e.fd == fd then elim (live e.tid) [ none ↦ m | some t ↦ map_erase (item_of t) m ] else m)

  -- erase(fd). The key compares fds alone, so the first of the two rounds removes the entries of
  -- both events.
  unfoldable pub erase_fd : (TaskId → Option Task) → Fd → TaskList W → TaskList W
  erase_fd live fd l = if fd == no_fd then l else record {
    ordered_time_map = erase_timed live fd l.fd_cache_map l.ordered_time_map;
    fd_cache_map = erase_entries fd l.fd_cache_map;
  }

  unfoldable pub size : TaskList W → ℕ
  size l = length l.ordered_time_map

  unfoldable pub has : Task → TaskList W → Bool
  has t l = elim (map_find (item_of t) l.ordered_time_map) [ none ↦ false | some e ↦ true ]

  unfoldable pub search : Fd → EventType → TaskList W → List TaskId
  search fd ev l = search_list fd ev l.fd_cache_map

  unfoldable pub search_all : Fd → TaskList W → List TaskId
  search_all fd l = search fd event_read l ++ search fd event_write l
