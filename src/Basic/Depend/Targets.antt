-- ===== src/Basic/Depend/Targets.antt =====
-- The loop over the queue, and the order of its targets.
use libpeco.Base.{
  ℕ, zero, suc, ◌+◌, ◌≤◌, ◌<◌, Bool, true, false, List, [], ◌∷◌, ◌++◌, Option, some, ◌≡◌, refl, sym,
  ap, ◌∙◌, arith, length, length-append, ◌==◌, ==→eq, ◌⊎◌, inl, inr, Bool-cases, Yields, subst,
}
use mathlib.Core.Option.{none-ne-some, some-injective}
use libpeco.Basic.Depend.{holds, r_dep, pairs_of, process_target, collect, is_earlier, dep_order}
use libpeco.Basic.Depend.Counts.{no_item}
use libpeco.Basic.Depend.Order.{is_earlier-r_dep, reference_counts-some}
use libpeco.Basic.Depend.Pairs.{holds-append, holds-r_dep, weight, weight_lt}

-- The pairs are those of the targets, and every dependency of a target is one or waits in the queue.
IsGathered : (ℕ → List ℕ) → List ℕ → List ℕ → List (ℕ × ℕ) → Type 0
IsGathered f_dep q ts ps =
    ((t d : ℕ) → holds t (r_dep d ps) ≡ true → holds d (f_dep t) ≡ true)
    × ((t d : ℕ)
        → holds t ts ≡ true
        → holds d (f_dep t) ≡ true
        → (holds t (r_dep d ps) ≡ true) × ((holds d ts ≡ true) ⊎ (holds d q ≡ true)))

module _ (f_dep : ℕ → List ℕ) (us : List ℕ)
    (closed : (t d : ℕ) → holds t us ≡ true → holds d (f_dep t) ≡ true → holds d us ≡ true) where
  IsGathered_seen :
      (t : ℕ) (q ts : List ℕ) (ps : List (ℕ × ℕ))
      → holds t ts ≡ true
      → IsGathered f_dep (t ∷ q) ts ps
      → IsGathered f_dep q ts ps
  unfolding IsGathered
  IsGathered_seen t q ts ps h (a, b) = (
    a,
    λ s d k l. (
      (b s d k l).0,
      elim (b s d k l).1 [
        | inl m ↦ inl m
        | inr m ↦ elim (Bool-cases (t == d)) [
          | inl e ↦ inl (subst (λ i. holds i ts ≡ true) (==→eq t d e) h)
          | inr e ↦ inr (unfold holds in ground (arith, m, e))
        ]
      ],
    ),
  )

  IsGathered_new :
      (t : ℕ) (q ts : List ℕ) (ps : List (ℕ × ℕ))
      → IsGathered f_dep (t ∷ q) ts ps
      → IsGathered f_dep (q ++ f_dep t) (t ∷ ts) (ps ++ pairs_of t (f_dep t))
  unfolding IsGathered
  IsGathered_new t q ts ps (a, b) = (
    λ s d h. elim (Bool-cases (holds s (r_dep d ps))) [
      | inl e ↦ a s d e
      | inr e ↦ elim (Bool-cases (t == s)) [
        | inl n ↦
            subst (λ i. holds d (f_dep i) ≡ true) (==→eq t s n)
              (ground (arith, e, n, sym (holds-r_dep s d t ps (f_dep t)) ∙ h))
        | inr n ↦ absurd (ground (arith, e, n, sym (holds-r_dep s d t ps (f_dep t)) ∙ h))
      ]
    ],
    λ s d k l. elim (Bool-cases (t == s)) [
      | inl e ↦
          let own : holds d (f_dep t) ≡ true =
            subst (λ i. holds d (f_dep i) ≡ true) (sym (==→eq t s e)) l in
          (
            holds-r_dep s d t ps (f_dep t) ∙ ground (arith, e, own),
            inr (holds-append d q (f_dep t) ∙ ground (arith, own)),
          )
      | inr e ↦
          let old : holds s ts ≡ true = unfold holds in ground (arith, e, k) in
          (
            holds-r_dep s d t ps (f_dep t) ∙ ground (arith, (b s d old l).0),
            elim (b s d old l).1 [
              | inl m ↦ inl (unfold holds in ground (arith, m))
              | inr m ↦ elim (Bool-cases (t == d)) [
                | inl n ↦ inl (unfold holds in ground (arith, n))
                | inr n ↦
                    let later : holds d q ≡ true = unfold holds in ground (arith, m, n) in
                    inr (holds-append d q (f_dep t) ∙ ground (arith, later))
              ]
            ],
          )
    ],
  )

  -- With as many rounds as the queue is long and the items that are no targets yet have
  -- dependencies, the loop ends, and what it gathers is complete.
  collect-IsGathered :
      (f : ℕ) (q ts : List ℕ) (ps : List (ℕ × ℕ))
      → length q + weight f_dep us ts ≤ f
      → ((t : ℕ) → holds t q ≡ true → holds t us ≡ true)
      → IsGathered f_dep q ts ps
      → Yields (collect f_dep f q ts ps) (λ r. IsGathered f_dep [] r.0 r.1)
  unfolding collect process_target
  collect-IsGathered f [] ts ps h w g = ((ts, ps), (unfold collect in refl), g)
  collect-IsGathered zero (t ∷ q) ts ps h w g = absurd (omega (arith, h))
  collect-IsGathered (suc f) (t ∷ q) ts ps h w g = elim (Bool-cases (holds t ts)) [
    | inl e ↦
        rw (e, collect, process_target)
          (collect-IsGathered f q ts ps (omega (arith, h))
            (λ x k. w x (unfold holds in ground (arith, k))) (IsGathered_seen t q ts ps e g))
    | inr e ↦
        let mine : holds t us ≡ true = w t (unfold holds in ground arith) in
        rw (e, collect, process_target)
          (collect-IsGathered f (q ++ f_dep t) (t ∷ ts) (ps ++ pairs_of t (f_dep t))
            (omega (arith, h, length-append q (f_dep t), weight_lt f_dep us t ts mine e))
            (λ x k. elim (Bool-cases (holds x q)) [
              | inl m ↦ w x (unfold holds in ground (arith, m))
              | inr m ↦ closed t x mine (ground (arith, m, sym (holds-append x q (f_dep t)) ∙ k))
            ])
            (IsGathered_new t q ts ps g))
  ]

collect-holds :
    (f_dep : ℕ → List ℕ) (f : ℕ) (q ts : List ℕ) (ps : List (ℕ × ℕ)) (r : List ℕ × List (ℕ × ℕ))
    (x : ℕ)
    → collect f_dep f q ts ps ≡ some r
    → (holds x ts ≡ true) ⊎ (holds x q ≡ true)
    → holds x r.0 ≡ true
unfolding collect process_target
collect-holds f_dep f [] ts ps r x h k =
    let e : (ts, ps) ≡ r = some-injective (ts, ps) r (unfold collect in h) in
    elim k [ inl m ↦ ap (λ p. holds x p.0) (sym e) ∙ m | inr m ↦ absurd (no_item x m) ]
collect-holds f_dep zero (t ∷ q) ts ps r x h k = absurd (none-ne-some r h)
collect-holds f_dep (suc f) (t ∷ q) ts ps r x h k = elim (Bool-cases (holds t ts)) [
  | inl e ↦
      let step : collect f_dep (suc f) (t ∷ q) ts ps ≡ collect f_dep f q ts ps =
        rw (collect, process_target, e) refl in
      collect-holds f_dep f q ts ps r x (sym step ∙ h) (elim k [
        | inl m ↦ inl m
        | inr m ↦ elim (Bool-cases (t == x)) [
          | inl n ↦ inl (subst (λ i. holds i ts ≡ true) (==→eq t x n) e)
          | inr n ↦ inr (unfold holds in ground (arith, m, n))
        ]
      ])
  | inr e ↦
      let step : collect f_dep (suc f) (t ∷ q) ts ps
          ≡ collect f_dep f (q ++ f_dep t) (t ∷ ts) (ps ++ pairs_of t (f_dep t)) =
        rw (collect, process_target, e) refl in
      collect-holds f_dep f (q ++ f_dep t) (t ∷ ts) (ps ++ pairs_of t (f_dep t)) r x (sym step ∙ h)
        (elim k [
          | inl m ↦ inl (unfold holds in ground (arith, m))
          | inr m ↦ elim (Bool-cases (t == x)) [
            | inl n ↦ inl (unfold holds in ground (arith, n))
            | inr n ↦
                let later : holds x q ≡ true = unfold holds in ground (arith, m, n) in
                inr (holds-append x q (f_dep t) ∙ ground (arith, later))
          ]
        ])
]

start : (f_dep : ℕ → List ℕ) (target : ℕ) → IsGathered f_dep (target ∷ []) [] []
unfolding IsGathered r_dep
start f_dep target = (λ t d h. absurd (no_item t h), λ t d h k. absurd (no_item t h))

-- Where the dependencies of the items of a list stay in it and have no cycle, as a rank that falls
-- along them shows, dep_order ends without the assert in as many rounds as the items have
-- dependencies, plus one, and a recursion as deep as the largest rank, plus one. It sorts targets
-- that hold the one asked for and all dependencies of each of them, by a comparison that puts
-- every dependency before the targets that have it, and none of these before it.
pub dep_order-is_earlier :
    (f_dep : ℕ → List ℕ) (us : List ℕ) (rank : ℕ → ℕ) (limit target : ℕ)
    (sort : (ℕ → ℕ → Option Bool) → List ℕ → List ℕ)
    → ((t d : ℕ) → holds t us ≡ true → holds d (f_dep t) ≡ true → holds d us ≡ true)
    → holds target us ≡ true
    → ((t d : ℕ) → holds d (f_dep t) ≡ true → rank d < rank t)
    → ((t : ℕ) → rank t ≤ limit)
    → (ts : List ℕ) × ((ps : List (ℕ × ℕ)) × (dep_order f_dep
            (suc (weight f_dep us []))
            (suc limit)
            sort
            target
          ≡ some (sort (is_earlier (suc limit) ps) ts))
        × (holds target ts ≡ true)
        × ((t d : ℕ)
            → holds t ts ≡ true
            → holds d (f_dep t) ≡ true
            → (holds d ts ≡ true)
              × ((is_earlier (suc limit) ps d t ≡ some true)
                  × (is_earlier (suc limit) ps t d ≡ some false))))
unfolding dep_order IsGathered
dep_order-is_earlier f_dep us rank limit target sort closed mine falls bounded =
    let (r, e, (a, b)) =
      collect-IsGathered f_dep us closed (suc (weight f_dep us [])) (target ∷ []) [] []
        (omega arith)
        (λ t k. elim (Bool-cases (target == t)) [
          | inl n ↦ subst (λ i. holds i us ≡ true) (==→eq target t n) mine
          | inr n ↦ absurd (unfold holds in ground (arith, k, n))
        ])
        (start f_dep target) in
    let (ns, k) = reference_counts-some r.1 rank limit (λ x y h. falls y x (a y x h)) bounded r.0 in
    (
      r.0,
      (
        r.1,
        rw (e, k) refl,
        collect-holds f_dep (suc (weight f_dep us [])) (target ∷ []) [] [] r target e
            (inr (unfold holds in ground arith)),
        λ t d k l. (
          elim (b t d k l).1 [ inl m ↦ m | inr m ↦ absurd (no_item d m) ],
          is_earlier-r_dep r.1 rank limit (λ x y h. falls y x (a y x h)) bounded d t (b t d k l).0,
        ),
      ),
    )
