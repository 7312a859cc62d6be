-- ===== src/Task/TaskList/Collision.antt =====
-- Two tasks that are to fire at the same time: the comparator takes their keys for equal.
use libpeco.Base.{
  suc, ◌≤◌, true, List, [], ◌∷◌, map, some, ◌≡◌, ◌≢◌, refl, arith, All, Any, inl, inr,
}
use libpeco.Task.Types.{TaskId, Time, Fd, Task, EventType}
use libpeco.Task.TaskList.{Item, Entry, TaskList, item_of, less, map_find, map_assign, insert, has}
use libpeco.Task.TaskList.Order.{Above, IsOrdered, time_of}

module _ {W : Type 0} where
  abbrev pub items : List (Entry W) → List Item
  items = map (λ e. e.item)

  abbrev pub Lacks : TaskId → List (Entry W) → Type 0
  Lacks tid = All (λ e. e.item.tid ≢ tid)

  le_of_Any :
      (lo time : Time) (l : List (Entry W)) → Above lo l → Any (λ e. time_of e ≡ time) l → lo ≤ time
  le_of_Any lo time [] o h = absurd h
  le_of_Any lo time (e ∷ l) o (inl h) = omega arith
  le_of_Any lo time (e ∷ l) o (inr h) = omega (arith, le_of_Any (suc (time_of e)) time l o.1 h)

  map_assign_taken :
      (k : Item) (w : W) (lo : Time) (l : List (Entry W))
      → Above lo l
      → Lacks k.tid l
      → Any (λ e. time_of e ≡ k.next_fire_time) l
      → items (map_assign k w l) ≡ items l
  unfolding map_assign less
  map_assign_taken k w lo [] o n h = absurd h
  map_assign_taken k w lo (e ∷ l) o n (inl h) = ground arith
  map_assign_taken k w lo (e ∷ l) o n (inr h) = ground (
    arith,
    le_of_Any (suc (time_of e)) k.next_fire_time l o.1 h,
    map_assign_taken k w (suc (time_of e)) l o.1 n.1 h,
  )

  map_find_taken :
      (k : Item) (w : W) (lo : Time) (l : List (Entry W))
      → Above lo l
      → Lacks k.tid l
      → Any (λ e. time_of e ≡ k.next_fire_time) l
      → (e : Entry W) × (map_find k (map_assign k w l) ≡ some e)
        × (e.item.tid ≢ k.tid)
        × (e.on_time ≡ w)
  unfolding map_assign map_find less
  map_find_taken k w lo [] o n h = absurd h
  map_find_taken k w lo (e ∷ l) o n (inl h) =
      (record { item = e.item; on_time = w }, ground arith, n.0, refl)
  map_find_taken k w lo (e ∷ l) o n (inr h) =
      let after : suc (time_of e) ≤ k.next_fire_time =
        le_of_Any (suc (time_of e)) k.next_fire_time l o.1 h in
      let (x, found, other, handler) = map_find_taken k w (suc (time_of e)) l o.1 n.1 h in
      (x, ground arith, other, handler)

  Lacks-items :
      (tid : TaskId) (l m : List (Entry W)) → items l ≡ items m → Lacks tid m → Lacks tid l
  Lacks-items tid [] m h n = tt
  Lacks-items tid (e ∷ l) [] h n = absurd (cc)
  Lacks-items tid (e ∷ l) (x ∷ m) h n = (ground arith, Lacks-items tid l m (cc) n.1)

  -- A task that is inserted with the fire time of another one is lost: the keys of the list stay
  -- as they were, so the task is not among them, although `has` says so; what it finds is the
  -- entry of the other task, whose handler has been overwritten.
  pub insert_same_time :
      (t : Task) (w : W) (fd : Fd) (ev : EventType) (l : TaskList W)
      → IsOrdered l.ordered_time_map
      → Lacks t.tid l.ordered_time_map
      → Any (λ e. time_of e ≡ t.next_fire_time) l.ordered_time_map
      → let m = insert (some t) w fd ev l in
        (items m.ordered_time_map ≡ items l.ordered_time_map)
        × Lacks t.tid m.ordered_time_map
        × (has t m ≡ true)
        × (e : Entry W) × (map_find (item_of t) m.ordered_time_map ≡ some e)
        × (e.item.tid ≢ t.tid)
        × (e.on_time ≡ w)
  unfolding insert has
  insert_same_time t w fd ev l o n h =
      let same = map_assign_taken (item_of t) w 0 l.ordered_time_map o n h in
      let (e, found, other, handler) = map_find_taken (item_of t) w 0 l.ordered_time_map o n h in
      (
        same,
        Lacks-items t.tid _ l.ordered_time_map same n,
        rw (found, has),
        e,
        found,
        other,
        handler,
      )
