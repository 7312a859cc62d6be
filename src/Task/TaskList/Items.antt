-- ===== src/Task/TaskList/Items.antt =====
-- Predicates on the keys of the timed map, and when an id is not in it.
use libpeco.Base.{
  suc, ◌≤◌, ◌<◌, true, false, Bool, List, [], ◌∷◌, Option, none, some, ◌≡◌, ◌≢◌, arith, All, ◌==◌,
  if◌then◌else◌, Bool-cases, inl, inr,
}
use libpeco.Task.Types.{TaskId, Time, Fd, Task}
use libpeco.Task.TaskList.{
  Item, Entry, FdEntry, item_of, less, map_find, map_assign, map_erase_at, drop_equal, map_erase,
  erase_timed,
}
use libpeco.Task.TaskList.Order.{Above, time_of}

less_ne : (a b : Item) → less a b ≡ true → b.tid ≢ a.tid
unfolding less
less_ne a b h = ground arith

less_ne' : (a b : Item) → less a b ≡ true → a.tid ≢ b.tid
unfolding less
less_ne' a b h = ground arith

less_lt : (a b : Item) → less a b ≡ true → a.next_fire_time < b.next_fire_time
unfolding less
less_lt a b h = ground arith

not_less-le :
    (a k : Item)
    → less a k ≡ false
    → (a.tid ≡ k.tid → a.next_fire_time ≡ k.next_fire_time)
    → k.next_fire_time ≤ a.next_fire_time
unfolding less
not_less-le a k h f = ground arith

module _ {W : Type 0} where
  abbrev pub AllItems : (Item → Type 0) → List (Entry W) → Type 0
  AllItems P = All (λ e. P e.item)

  -- The id stands at no key.
  abbrev pub Unlisted : TaskId → List (Entry W) → Type 0
  Unlisted tid = AllItems (λ i. i.tid ≢ tid)

  pub AllItems-mono :
      (P Q : Item → Type 0) (l : List (Entry W))
      → ((i : Item) → P i → Q i)
      → AllItems P l
      → AllItems Q l
  AllItems-mono P Q [] f h = tt
  AllItems-mono P Q (e ∷ l) f h = (f e.item h.0, AllItems-mono P Q l f h.1)

  pub AllItems-both :
      (P Q : Item → Type 0) (l : List (Entry W))
      → AllItems P l
      → AllItems Q l
      → AllItems (λ i. P i × Q i) l
  AllItems-both P Q [] h k = tt
  AllItems-both P Q (e ∷ l) h k = ((h.0, k.0), AllItems-both P Q l h.1 k.1)

  module _ (P : Item → Type 0) (k : Item) where
    pub map_assign-AllItems :
        (w : W) (l : List (Entry W)) → P k → AllItems P l → AllItems P (map_assign k w l)
    unfolding map_assign
    map_assign-AllItems w [] p h = (p, tt)
    map_assign-AllItems w (e ∷ l) p h = ground (arith, map_assign-AllItems w l p h.1)

    pub drop_equal-AllItems : (l : List (Entry W)) → AllItems P l → AllItems P (drop_equal k l)
    unfolding drop_equal
    drop_equal-AllItems [] h = tt
    drop_equal-AllItems (e ∷ l) h = ground (arith, drop_equal-AllItems l h.1)

    pub map_erase-AllItems : (l : List (Entry W)) → AllItems P l → AllItems P (map_erase k l)
    unfolding map_erase
    map_erase-AllItems [] h = tt
    map_erase-AllItems (e ∷ l) h =
        ground (arith, map_erase-AllItems l h.1, drop_equal-AllItems (e ∷ l) h)

    pub map_erase_at-AllItems : (l : List (Entry W)) → AllItems P l → AllItems P (map_erase_at k l)
    unfolding map_erase_at
    map_erase_at-AllItems [] h = tt
    map_erase_at-AllItems (e ∷ l) h = ground (arith, map_erase_at-AllItems l h.1)

  module _ (k : Item) where
    -- The id of the key stands in the list at the time of the key, if at all.
    abbrev pub Agrees : List (Entry W) → Type 0
    Agrees = AllItems (λ i. i.tid ≡ k.tid → i.next_fire_time ≡ k.next_fire_time)

    pub Agrees-Unlisted :
        (lo : Time) (l : List (Entry W))
        → suc k.next_fire_time ≤ lo
        → Above lo l
        → Agrees l
        → Unlisted k.tid l
    Agrees-Unlisted lo [] h o a = tt
    Agrees-Unlisted lo (e ∷ l) h o a = (
      λ p. absurd (omega (arith, a.0 p)),
      Agrees-Unlisted (suc (time_of e)) l (omega arith) o.1 a.1,
    )

    pub drop_equal-Unlisted :
        (lo : Time) (l : List (Entry W))
        → k.next_fire_time ≤ lo
        → Above lo l
        → Agrees l
        → Unlisted k.tid (drop_equal k l)
    unfolding drop_equal less
    drop_equal-Unlisted lo [] h o a = tt
    drop_equal-Unlisted lo (e ∷ l) h o a = elim (Bool-cases (less k e.item)) [
      | inl c ↦ rw c (
        less_ne k e.item c,
        Agrees-Unlisted (suc (time_of e)) l (ground (arith, less_lt k e.item)) o.1 a.1,
      )
      | inr c ↦ rw c (drop_equal-Unlisted (suc (time_of e)) l (omega arith) o.1 a.1)
    ]

    -- Erasing a key takes its id out of an ordered list.
    pub map_erase-Unlisted :
        (lo : Time) (l : List (Entry W)) → Above lo l → Agrees l → Unlisted k.tid (map_erase k l)
    unfolding map_erase
    map_erase-Unlisted lo [] o a = tt
    map_erase-Unlisted lo (e ∷ l) o a = elim (Bool-cases (less e.item k)) [
      | inl c ↦ rw c (less_ne' e.item k c, map_erase-Unlisted (suc (time_of e)) l o.1 a.1)
      | inr c ↦ rw c (
          drop_equal-Unlisted (time_of e) (e ∷ l) (not_less-le e.item k c a.0) (omega arith, o.1) a)
    ]

    pub map_erase_at-Unlisted :
        (lo : Time) (l : List (Entry W)) → Above lo l → Agrees l → Unlisted k.tid (map_erase_at k l)
    unfolding map_erase_at
    map_erase_at-Unlisted lo [] o a = tt
    map_erase_at-Unlisted lo (e ∷ l) o a = elim (Bool-cases (less e.item k)) [
      | inl c ↦ rw c (less_ne' e.item k c, map_erase_at-Unlisted (suc (time_of e)) l o.1 a.1)
      | inr c ↦
          rw c (
            Agrees-Unlisted (suc (time_of e)) l (omega (arith, not_less-le e.item k c a.0)) o.1 a.1)
    ]

    -- A key that is not found has its id nowhere in the list.
    pub map_find-none-Unlisted :
        (lo : Time) (l : List (Entry W))
        → Above lo l
        → Agrees l
        → map_find k l ≡ none
        → Unlisted k.tid l
    unfolding map_find
    map_find-none-Unlisted lo [] o a h = tt
    map_find-none-Unlisted lo (e ∷ l) o a h = elim (Bool-cases (less e.item k)) [
      | inl c ↦
          (less_ne' e.item k c, map_find-none-Unlisted (suc (time_of e)) l o.1 a.1 (ground arith))
      | inr c ↦ elim (Bool-cases (less k e.item)) [
        | inl d ↦ (
          less_ne k e.item d,
          Agrees-Unlisted (suc (time_of e)) l (omega (arith, less_lt k e.item d)) o.1 a.1,
        )
        | inr d ↦ absurd (ground arith)
      ]
    ]

  pub erase_timed-AllItems :
      (P : Item → Type 0) (live : TaskId → Option Task) (fd : Fd) (c : List FdEntry)
      (l : List (Entry W))
      → AllItems P l
      → AllItems P (erase_timed live fd c l)
  unfolding erase_timed
  erase_timed-AllItems P live fd [] l h = h
  erase_timed-AllItems P live fd (e ∷ c) l h =
      erase_timed-AllItems P live fd c _ (erased (e.fd == fd) (live e.tid))
    where
      erased :
          (b : Bool) (p : Option Task)
          → AllItems P (if b then elim p [ none ↦ l | some t ↦ map_erase (item_of t) l ] else l)
      erased true none = h
      erased true (some t) = map_erase-AllItems P (item_of t) l h
      erased false p = h
