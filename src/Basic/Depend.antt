-- ===== src/Basic/Depend.antt =====
-- dep_order of src/basic/depend.h. An item is a number; the shared nodes are their items, and the
-- reversed dependencies of all of them the list of pairs of an item and one that it depends on.
-- Recursion and the loop over the queue count their rounds: `none` stands for too few of them, or
-- for the assert on a cycle.
pub mod Sets
pub mod Counts
pub mod Order
pub mod Pairs
pub mod Targets
mod Tests
use libpeco.Base.{
  ℕ, zero, suc, Bool, true, false, List, [], ◌∷◌, ◌++◌, Option, none, some, length, ltb, ◌==◌,
  if◌then◌else◌, ◌>>=◌,
}

unfoldable pub holds : ℕ → List ℕ → Bool
holds t [] = false
holds t (s ∷ ss) = if s == t then true else holds t ss

-- Insertion into a set.
unfoldable pub insert_item : ℕ → List ℕ → List ℕ
unfolding holds
insert_item t ss = if holds t ss then ss else t ∷ ss

-- The items that depend on an item, from the pairs.
unfoldable pub r_dep : ℕ → List (ℕ × ℕ) → List ℕ
r_dep d [] = []
r_dep d ((t, e) ∷ ps) = if e == d then t ∷ r_dep d ps else r_dep d ps

-- The loop of __reference_depend over the items that depend on one, with the call that it makes.
unfoldable pub reference_each :
    (ℕ → List ℕ → Option (List ℕ)) → ℕ → List ℕ → List ℕ → Option (List ℕ)
unfolding insert_item
reference_each go root [] set = some set
reference_each go root (r ∷ rs) set =
    if r == root
    then none
    else (go r (insert_item r set) >>= λ set'. reference_each go root rs set')

-- __reference_depend of an item, with the set so far.
unfoldable pub reference_depend : ℕ → List (ℕ × ℕ) → ℕ → ℕ → List ℕ → Option (List ℕ)
unfolding r_dep reference_each
reference_depend zero ps root t set = none
reference_depend (suc f) ps root t set =
    reference_each (λ r ss. reference_depend f ps root r ss) root (r_dep t ps) set

unfoldable pub ref_count : ℕ → List (ℕ × ℕ) → ℕ → Option ℕ
unfolding reference_depend
ref_count f ps t = reference_depend f ps t t [] >>= λ set. some (length set)

-- What std::sort asks of two items.
unfoldable pub is_earlier : ℕ → List (ℕ × ℕ) → ℕ → ℕ → Option Bool
unfolding ref_count
is_earlier f ps a b = do m ← ref_count f ps a; n ← ref_count f ps b; some (ltb n m)

-- The loop that counts for every item.
unfoldable pub reference_counts : ℕ → List (ℕ × ℕ) → List ℕ → Option (List ℕ)
unfolding ref_count
reference_counts f ps [] = some []
reference_counts f ps (t ∷ ts) = do
  n ← ref_count f ps t
  ns ← reference_counts f ps ts
  some (n ∷ ns)

unfoldable pub pairs_of : ℕ → List ℕ → List (ℕ × ℕ)
pairs_of t [] = []
pairs_of t (d ∷ ds) = (t, d) ∷ pairs_of t ds

-- The state of the loop over the queue: the queue, the targets and the pairs.
pub record Pending : Type 0 where
  pub queue : List ℕ
  pub targets : List ℕ
  pub pairs : List (ℕ × ℕ)

module _ (f_dep : ℕ → List ℕ) where
  -- The loop's body, for the first item of the queue.
  unfoldable pub process_target : ℕ → Pending → Pending
  unfolding holds pairs_of
  process_target t s = if holds t s.targets then s else record {
    queue = s.queue ++ f_dep t;
    targets = t ∷ s.targets;
    pairs = s.pairs ++ pairs_of t (f_dep t);
  }

  -- The loop, for at most as many rounds as the first number says.
  unfoldable pub collect : ℕ → List ℕ → List ℕ → List (ℕ × ℕ) → Option (List ℕ × List (ℕ × ℕ))
  unfolding process_target
  collect f [] ts ps = some (ts, ps)
  collect zero (t ∷ q) ts ps = none
  collect (suc f) (t ∷ q) ts ps =
      let s = process_target t (record { queue = q; targets = ts; pairs = ps }) in
      collect f s.queue s.targets s.pairs

  -- The whole function, with the sorting of the targets by a comparison as a parameter. The counts
  -- are taken of all targets first; the comparison then takes them again in place of looking them up.
  unfoldable pub dep_order : ℕ → ℕ → ((ℕ → ℕ → Option Bool) → List ℕ → List ℕ) → ℕ → Option (List ℕ)
  unfolding collect is_earlier reference_counts
  dep_order f depth sort target = do
    r ← collect f (target ∷ []) [] []
    ns ← reference_counts depth r.1 r.0
    some (sort (is_earlier depth r.1) r.0)
