-- ===== src/Task/TaskList/Insert.antt =====
-- A task whose time and id are not in the timed map yet.
use libpeco.Base.{
  suc, ◌+◌, ◌<◌, true, List, [], ◌∷◌, ◌++◌, some, ◌≡◌, ◌≢◌, refl, arith, All, length, ap, dec_lt,
  length-append,
}
use libpeco.Task.Types.{Time, Fd, Task, EventType}
use libpeco.Task.TaskList.{
  Item, Entry, TaskList, item_of, less, map_find, map_assign, map_erase_at, drop_equal, map_erase,
  insert, size, has,
}
use libpeco.Task.TaskList.Order.{Above, IsOrdered, time_of}

module _ {W : Type 0} where
  -- No entry has the id of the key, and none its time.
  abbrev pub IsFresh : Item → List (Entry W) → Type 0
  IsFresh k l = All (λ e. (e.item.tid ≢ k.tid) × (e.item.next_fire_time ≢ k.next_fire_time)) l

  module _ (k : Item) (w : W) where
    -- The place of a new key: behind every earlier time and before every later one.
    pub map_assign-split :
        (lo : Time) (l : List (Entry W))
        → Above lo l
        → IsFresh k l
        → (l1 : List (Entry W)) × (l2 : List (Entry W)) × (l ≡ l1 ++ l2)
          × (map_assign k w l ≡ l1 ++ record { item = k; on_time = w } ∷ l2)
          × All (λ e. time_of e < k.next_fire_time) l1
          × Above (suc k.next_fire_time) l2
    unfolding map_assign less
    map_assign-split lo [] o f = ([], [], refl, refl, tt, tt)
    map_assign-split lo (e ∷ l) o f = elim (dec_lt (time_of e) k.next_fire_time) [
      | yes h ↦
          let (l1, l2, parts, whole, before, behind) =
            map_assign-split (suc (time_of e)) l o.1 f.1 in
          (e ∷ l1, l2, ap (◌∷◌ e) parts, ground arith, (h, before), behind)
      | no h ↦ ([], e ∷ l, refl, ground arith, tt, (ground arith, o.1))
    ]

    pub map_find-map_assign :
        (lo : Time) (l : List (Entry W))
        → Above lo l
        → IsFresh k l
        → map_find k (map_assign k w l) ≡ some (record { item = k; on_time = w })
    unfolding map_assign map_find less
    map_find-map_assign lo [] o f = ground arith
    map_find-map_assign lo (e ∷ l) o f = ground (arith, map_find-map_assign (suc (time_of e)) l)

    pub map_erase-map_assign :
        (lo : Time) (l : List (Entry W))
        → Above lo l
        → IsFresh k l
        → map_erase k (map_assign k w l) ≡ l
    unfolding map_assign map_erase drop_equal less
    map_erase-map_assign lo [] o f = ground arith
    map_erase-map_assign lo (e ∷ l) o f = ground (arith, map_erase-map_assign (suc (time_of e)) l)

    pub map_erase_at-map_assign :
        (lo : Time) (l : List (Entry W))
        → Above lo l
        → IsFresh k l
        → map_erase_at k (map_assign k w l) ≡ l
    unfolding map_assign map_erase_at less
    map_erase_at-map_assign lo [] o f = ground arith
    map_erase_at-map_assign lo (e ∷ l) o f =
        ground (arith, map_erase_at-map_assign (suc (time_of e)) l)

  -- A task whose id and fire time are new to an ordered list is put behind every earlier time and
  -- before every later one, and is found there with its handler; the list has one entry more.
  pub insert-IsFresh :
      (t : Task) (w : W) (fd : Fd) (ev : EventType) (l : TaskList W)
      → IsOrdered l.ordered_time_map
      → IsFresh (item_of t) l.ordered_time_map
      → let m = insert (some t) w fd ev l in
        (l1 : List (Entry W)) × (l2 : List (Entry W)) × (l.ordered_time_map ≡ l1 ++ l2)
        × (m.ordered_time_map ≡ l1 ++ record { item = item_of t; on_time = w } ∷ l2)
        × All (λ e. time_of e < t.next_fire_time) l1
        × Above (suc t.next_fire_time) l2
        × (has t m ≡ true)
        × (size m ≡ size l + 1)
  unfolding insert has size
  insert-IsFresh t w fd ev l o f =
      let (l1, l2, parts, whole, before, behind) =
        map_assign-split (item_of t) w 0 l.ordered_time_map o f in
      (
        l1,
        l2,
        parts,
        whole,
        before,
        behind,
        rw (map_find-map_assign (item_of t) w 0 l.ordered_time_map o f, has),
        omega (
          arith,
          ap length whole,
          ap length parts,
          length-append l1 l2,
          length-append l1 (record { item = item_of t; on_time = w } ∷ l2),
        ),
      )
