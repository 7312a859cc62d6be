-- ===== src/Basic/Depend/Order.antt =====
-- The comparison puts a dependency before what depends on it.
use libpeco.Base.{
  ℕ, zero, suc, ◌+◌, ◌≤◌, ◌<◌, true, false, List, [], ◌∷◌, Option, some, ◌≡◌, refl, arith, length,
  ◌==◌, ==→eq, inl, inr, Bool-cases, subst,
}
use libpeco.Basic.Depend.{
  holds, insert_item, r_dep, reference_each, reference_depend, ref_count, is_earlier,
  reference_counts,
}
use libpeco.Basic.Depend.Sets.{length-IsWithin}
use libpeco.Basic.Depend.Counts.{
  Above, one, more, no_item, reference_depend-Extends, reference_depend-Above,
}

-- The call and its loop end without the assert where no item is the root.
each-some :
    (go : ℕ → List ℕ → Option (List ℕ)) (root : ℕ) (rs set : List ℕ)
    → ((r : ℕ) → holds r rs ≡ true → (s : List ℕ) → (s' : List ℕ) × (go r s ≡ some s'))
    → ((r : ℕ) → holds r rs ≡ true → (r == root) ≡ false)
    → (set' : List ℕ) × (reference_each go root rs set ≡ some set')
unfolding reference_each
each-some go root [] set g n = (set, refl)
each-some go root (r ∷ rs) set g n =
    let first : holds r (r ∷ rs) ≡ true = unfold holds in ground arith in
    let (s, e) = g r first (insert_item r set) in
    let (s', e') =
      each-some go root rs s (λ x q. g x (unfold holds in ground (arith, q)))
        (λ x q. n x (unfold holds in ground (arith, q))) in
    (s', rw (n r first, e, e') refl)

module _ (ps : List (ℕ × ℕ)) (rank : ℕ → ℕ) (limit : ℕ)
    (rises : (t r : ℕ) → holds r (r_dep t ps) ≡ true → rank t < rank r)
    (bounded : (t : ℕ) → rank t ≤ limit) where
  reference_depend-some :
      (f root t : ℕ) (set : List ℕ)
      → limit < rank t + f
      → rank root ≤ rank t
      → (set' : List ℕ) × (reference_depend f ps root t set ≡ some set')
  unfolding reference_depend
  reference_depend-some zero root t set h k = absurd (omega (arith, h, bounded t))
  reference_depend-some (suc f) root t set h k =
      each-some (λ r s. reference_depend f ps root r s) root (r_dep t ps) set
        (λ r q s.
          reference_depend-some f root r s (omega (arith, h, rises t r q))
            (omega (arith, k, rises t r q)))
        (λ r q. ground (arith, rises t r q, k))

  pub reference_counts-some :
      (ts : List ℕ) → (ns : List ℕ) × (reference_counts (suc limit) ps ts ≡ some ns)
  unfolding reference_counts ref_count
  reference_counts-some [] = ([], refl)
  reference_counts-some (t ∷ ts) =
      let (set, e) = reference_depend-some (suc limit) t t [] (omega arith) (omega arith) in
      let (ns, k) = reference_counts-some ts in (length set ∷ ns, rw (e, k) refl)

  ref_count-lt :
      (d t : ℕ)
      → holds t (r_dep d ps) ≡ true
      → (m : ℕ) × ((n : ℕ) × (ref_count (suc limit) ps d ≡ some n)
          × (ref_count (suc limit) ps t ≡ some m)
          × (m < n))
  unfolding ref_count
  ref_count-lt d t h =
      let (sd, ed) = reference_depend-some (suc limit) d d [] (omega arith) (omega arith) in
      let (st, et) = reference_depend-some (suc limit) t t [] (omega arith) (omega arith) in
      let (dt, (mt, (ot, at))) = reference_depend-Extends ps t (suc limit) t [] st et in
      let within : (x : ℕ) → holds x (t ∷ st) ≡ true → holds x sd ≡ true = λ x q.
        elim (Bool-cases (t == x)) [
          | inl e ↦
              reference_depend-Above ps d (suc limit) d x [] sd ed
                (subst (Above ps d) (==→eq t x e) (one h))
          | inr e ↦ elim (at x (unfold holds in ground (arith, q, e))) [
            | inl k ↦ absurd (no_item x k)
            | inr a ↦ reference_depend-Above ps d (suc limit) d x [] sd ed (more h a)
          ]
        ] in
      (
        length st,
        (
          length sd,
          rw ed refl,
          rw et refl,
          omega (arith, length-IsWithin (t ∷ st) sd (ot (unfold holds in refl), dt tt) within),
        ),
      )

-- Where the dependencies have no cycle, as a rank that rises with them shows, and the recursion may
-- go as deep as the largest rank, the comparison puts every item before those that depend on it and
-- none of these before it, and the assert does not fail.
pub is_earlier-r_dep :
    (ps : List (ℕ × ℕ)) (rank : ℕ → ℕ) (limit : ℕ)
    → ((t r : ℕ) → holds r (r_dep t ps) ≡ true → rank t < rank r)
    → ((t : ℕ) → rank t ≤ limit)
    → (d t : ℕ) → holds t (r_dep d ps) ≡ true
    → (is_earlier (suc limit) ps d t ≡ some true) × (is_earlier (suc limit) ps t d ≡ some false)
unfolding is_earlier
is_earlier-r_dep ps rank limit rises bounded d t h =
    let (m, (n, ed, et, l)) = ref_count-lt ps rank limit rises bounded d t h in
    (rw (ed, et) (ground (arith, l)), rw (et, ed) (ground (arith, l)))
