-- ===== src/Task/TaskList/Order.antt =====
-- The order of the timed map. The comparator of the source is no order on tasks: two tasks that
-- fire at the same time are equivalent. What holds is that the times of a list strictly rise.
use libpeco.Base.{
  suc, ◌≤◌, ◌<◌, ◌⊎◌, Any, subst, sym, ap, length, Bool, true, false, List, [], ◌∷◌, Option, none,
  some, ◌≡◌, ◌≢◌, inl, inr, refl, arith, ◌==◌, if◌then◌else◌, Bool-cases, Option-cases,
}
use libpeco.Task.Types.{TaskId, Time, Fd, Task, EventType, no_fd}
use libpeco.Task.TaskList.{
  Item, Entry, TaskList, item_of, less, map_find, map_assign, map_erase_at, drop_equal, map_erase,
  nearest_time, fetch, insert, replace_time, erase, erase_fd, erase_timed, size, FdEntry,
}

module _ {W : Type 0} where
  abbrev pub time_of : Entry W → Time
  time_of e = e.item.next_fire_time

  -- The times rise, each above `lo`.
  abbrev pub Above : Time → List (Entry W) → Type 0
  Above lo [] = Unit {0}
  Above lo (e ∷ l) = (lo ≤ time_of e) × Above (suc (time_of e)) l

  abbrev pub IsOrdered : List (Entry W) → Type 0
  IsOrdered l = Above 0 l

  pub Above-mono : (a b : Time) (l : List (Entry W)) → a ≤ b → Above b l → Above a l
  Above-mono a b [] h o = tt
  Above-mono a b (e ∷ l) h o = (omega arith, o.1)

  pub map_assign-Above :
      (k : Item) (w : W) (lo : Time) (l : List (Entry W))
      → lo ≤ k.next_fire_time
      → Above lo l
      → Above lo (map_assign k w l)
  unfolding map_assign less
  map_assign-Above k w lo [] h o = ground arith
  map_assign-Above k w lo (e ∷ l) h o = ground (arith, map_assign-Above k w (suc (time_of e)) l)

  pub drop_equal-Above :
      (k : Item) (lo : Time) (l : List (Entry W)) → Above lo l → Above lo (drop_equal k l)
  unfolding drop_equal
  drop_equal-Above k lo [] o = tt
  drop_equal-Above k lo (e ∷ l) o = ground (
    arith,
    drop_equal-Above k (suc (time_of e)) l,
    Above-mono lo (suc (time_of e)) (drop_equal k l),
  )

  pub map_erase-Above :
      (k : Item) (lo : Time) (l : List (Entry W)) → Above lo l → Above lo (map_erase k l)
  unfolding map_erase
  map_erase-Above k lo [] o = tt
  map_erase-Above k lo (e ∷ l) o =
      ground (arith, map_erase-Above k (suc (time_of e)) l, drop_equal-Above k lo (e ∷ l))

  pub map_erase_at-Above :
      (k : Item) (lo : Time) (l : List (Entry W)) → Above lo l → Above lo (map_erase_at k l)
  unfolding map_erase_at
  map_erase_at-Above k lo [] o = tt
  map_erase_at-Above k lo (e ∷ l) o =
      ground (arith, map_erase_at-Above k (suc (time_of e)) l, Above-mono lo (suc (time_of e)) l)

  erase_timed-Above :
      (live : TaskId → Option Task) (fd : Fd) (c : List FdEntry) (l : List (Entry W))
      → IsOrdered l
      → IsOrdered (erase_timed live fd c l)
  unfolding erase_timed
  erase_timed-Above live fd [] l o = o
  erase_timed-Above live fd (e ∷ c) l o =
      erase_timed-Above live fd c _ (erased (e.fd == fd) (live e.tid))
    where
      erased :
          (b : Bool) (p : Option Task)
          → IsOrdered (if b then elim p [ none ↦ l | some t ↦ map_erase (item_of t) l ] else l)
      erased true none = o
      erased true (some t) = map_erase-Above (item_of t) 0 l o
      erased false p = o

  replace_time-IsOrdered :
      (t : Task) (time : Time) (l : TaskList W)
      → IsOrdered l.ordered_time_map
      → IsOrdered (replace_time t time l).0.ordered_time_map
  unfolding replace_time
  replace_time-IsOrdered t time l o =
      elim (Option-cases (map_find (item_of t) l.ordered_time_map)) [
        | inl e ↦ rw (e, replace_time) o
        | inr (x, e) ↦
            rw (e, replace_time)
              (map_assign-Above _ x.on_time 0 _ (omega arith)
                (map_erase_at-Above (item_of t) 0 l.ordered_time_map o))
      ]

  erase_fd-IsOrdered :
      (live : TaskId → Option Task) (fd : Fd) (l : TaskList W)
      → IsOrdered l.ordered_time_map
      → IsOrdered (erase_fd live fd l).ordered_time_map
  unfolding erase_fd
  erase_fd-IsOrdered live fd l o = elim (Bool-cases (fd == no_fd)) [
    | inl e ↦ rw e o
    | inr e ↦ rw e (erase_timed-Above live fd l.fd_cache_map l.ordered_time_map o)
  ]

  -- Whatever is inserted, replaced or erased, the fire times of the list keep rising strictly.
  pub operations-IsOrdered :
      (l : TaskList W) (p : Option Task) (t : Task) (w : W) (fd : Fd) (ev : EventType) (time : Time)
      (live : TaskId → Option Task)
      → IsOrdered l.ordered_time_map
      → IsOrdered (insert p w fd ev l).ordered_time_map
        × IsOrdered (replace_time t time l).0.ordered_time_map
        × IsOrdered (erase p fd ev l).ordered_time_map
        × IsOrdered (erase_fd live fd l).ordered_time_map
  unfolding insert erase
  operations-IsOrdered l none t w fd ev time live o =
      (o, replace_time-IsOrdered t time l o, o, erase_fd-IsOrdered live fd l o)
  operations-IsOrdered l (some p) t w fd ev time live o = (
    map_assign-Above (item_of p) w 0 l.ordered_time_map (omega arith) o,
    replace_time-IsOrdered t time l o,
    map_erase-Above (item_of p) 0 l.ordered_time_map o,
    erase_fd-IsOrdered live fd l o,
  )

  -- An entry of a list stands in it.
  abbrev pub IsListed : Entry W → List (Entry W) → Type 0
  IsListed x l = Any (λ e. x ≡ e) l

  Above-later :
      (lo : Time) (x : Entry W) (l : List (Entry W)) → Above lo l → IsListed x l → lo ≤ time_of x
  Above-later lo x [] o i = absurd i
  Above-later lo x (e ∷ l) o (inl p) = subst (λ y. lo ≤ time_of y) (sym p) o.0
  Above-later lo x (e ∷ l) o (inr i) = omega (arith, o.0, Above-later (suc (time_of e)) x l o.1 i)

  -- From a list that is not empty and whose times strictly rise, fetch takes one entry of the list:
  -- it returns the id and the handler of this entry, whose time is the nearest time. Every other
  -- entry stands in the list that is left and fires later, nothing else stands there, the list is
  -- shorter by one, and the fd map is unchanged.
  pub fetch-nearest :
      (l : TaskList W)
      → l.ordered_time_map ≢ []
      → IsOrdered l.ordered_time_map
      → (e : Entry W) × (rest : List (Entry W)) × IsListed e l.ordered_time_map
        × (nearest_time l ≡ some (time_of e))
        × (fetch l ≡ some (e.item.tid, e.on_time, record l { ordered_time_map = rest }))
        × ((x : Entry W)
            → IsListed x l.ordered_time_map
            → (x ≡ e) ⊎ (IsListed x rest × (time_of e < time_of x)))
        × ((x : Entry W) → IsListed x rest → IsListed x l.ordered_time_map)
        × (size l ≡ suc (length rest))
  unfolding fetch nearest_time size
  fetch-nearest l n o = from l.ordered_time_map refl
    where
      from :
          (m : List (Entry W))
          → l.ordered_time_map ≡ m
          → (e : Entry W) × (rest : List (Entry W)) × IsListed e l.ordered_time_map
            × (nearest_time l ≡ some (time_of e))
            × (fetch l ≡ some (e.item.tid, e.on_time, record l { ordered_time_map = rest }))
            × ((x : Entry W)
                → IsListed x l.ordered_time_map
                → (x ≡ e) ⊎ (IsListed x rest × (time_of e < time_of x)))
            × ((x : Entry W) → IsListed x rest → IsListed x l.ordered_time_map)
            × (size l ≡ suc (length rest))
      from [] e = absurd (n e)
      from (x ∷ m) e = (
        x,
        m,
        subst (λ k. IsListed x k) (sym e) (inl refl),
        rw e refl,
        rw e refl,
        λ y i. elim (subst (λ k. IsListed y k) e i) [
          | inl p ↦ inl p
          | inr j ↦ inr (j, Above-later (suc (time_of x)) y m (subst IsOrdered e o).1 j)
        ],
        λ y j. subst (λ k. IsListed y k) (sym e) (inr j),
        ap length e,
      )
