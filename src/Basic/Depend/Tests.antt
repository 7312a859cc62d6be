-- ===== src/Basic/Depend/Tests.antt =====
-- A dependency order at concrete items: 3 depends on 1 and 2, and 2 on 1.
use libpeco.Base.{
  ℕ, ◌≤◌, ◌<◌, Bool, true, false, List, [], ◌∷◌, Option, none, some, ◌≡◌, refl, arith, ◌==◌,
  if◌then◌else◌, ltb,
}
use libpeco.Basic.Depend.{holds, is_earlier, dep_order}
use libpeco.Basic.Depend.Pairs.{weight}
use libpeco.Basic.Depend.Targets.{dep_order-is_earlier}

abbrev f_dep : ℕ → List ℕ
f_dep t = if t == 3 then 1 ∷ 2 ∷ [] else if t == 2 then 1 ∷ [] else []

abbrev rank : ℕ → ℕ
rank t = if ltb t 4 then t else 0

abbrev us : List ℕ
us = 1 ∷ 2 ∷ 3 ∷ []

abbrev insert : (ℕ → ℕ → Option Bool) → ℕ → List ℕ → List ℕ
insert c a [] = a ∷ []
insert c a (b ∷ bs) = elim (c a b) [
  | none ↦ a ∷ b ∷ bs
  | some e ↦ if e then a ∷ b ∷ bs else b ∷ insert c a bs
]

abbrev sort : (ℕ → ℕ → Option Bool) → List ℕ → List ℕ
sort c [] = []
sort c (a ∷ bs) = insert c a (sort c bs)

dep_order_test : dep_order f_dep 4 4 sort 3 ≡ some (1 ∷ 2 ∷ 3 ∷ [])
unfolding dep_order
dep_order_test = refl

closed : (t d : ℕ) → holds t us ≡ true → holds d (f_dep t) ≡ true → holds d us ≡ true
unfolding holds
closed t d h k = ground (arith, h, k)

falls : (t d : ℕ) → holds d (f_dep t) ≡ true → rank d < rank t
unfolding holds
falls t d h = ground (arith, h)

bounded : (t : ℕ) → rank t ≤ 3
bounded t = ground arith

dep_order-is_earlier_example :
    (ts : List ℕ) × ((ps : List (ℕ × ℕ)) × (dep_order f_dep 4 4 sort 3
        ≡ some (sort (is_earlier 4 ps) ts))
      × (holds 3 ts ≡ true)
      × ((t d : ℕ)
          → holds t ts ≡ true
          → holds d (f_dep t) ≡ true
          → (holds d ts ≡ true)
            × ((is_earlier 4 ps d t ≡ some true) × (is_earlier 4 ps t d ≡ some false))))
unfolding weight holds
dep_order-is_earlier_example = dep_order-is_earlier f_dep us rank 3 3 sort closed refl falls bounded
