-- ===== src/Basic/Depend/Counts.antt =====
-- How many items depend on one, directly or through others.
use libpeco.Base.{
  ℕ, zero, suc, true, false, List, [], ◌∷◌, Option, none, some, ◌≡◌, refl, sym, ap, ◌∙◌, arith,
  ◌==◌, ==→eq, if◌then◌else◌, ◌⊎◌, inl, inr, Bool-cases, Option-cases, subst,
}
use mathlib.Core.Option.{none-ne-some, some-injective}
use libpeco.Basic.Depend.{holds, insert_item, r_dep, reference_each, reference_depend}
use libpeco.Basic.Depend.Sets.{IsDistinct, insert_item-IsDistinct, holds-insert_item}

-- The second item depends on the first, directly or through others.
pub data Above (ps : List (ℕ × ℕ)) : ℕ → ℕ → Type 0 where
  one : {t r : ℕ} → holds r (r_dep t ps) ≡ true → Above ps t r
  more : {t r x : ℕ} → holds r (r_dep t ps) ≡ true → Above ps r x → Above ps t x

pub no_item : (x : ℕ) → holds x [] ≡ true → ⊥
unfolding holds
no_item x h = cc

insert_item_other :
    (x r : ℕ) (set : List ℕ)
    → (r == x) ≡ false
    → holds x (insert_item r set) ≡ true
    → holds x set ≡ true
insert_item_other x r set e q =
    sym (ap (λ b. if b then true else holds x set) e) ∙ sym (holds-insert_item x r set) ∙ q

module _ (ps : List (ℕ × ℕ)) (root : ℕ) where
  -- What a call adds to the set: items that depend on its item, each once, and not the root.
  abbrev pub Extends : ℕ → List ℕ → List ℕ → Type 0
  Extends t set set' =
      (IsDistinct set → IsDistinct set')
      × (((x : ℕ) → holds x set ≡ true → holds x set' ≡ true)
          × ((holds root set ≡ false → holds root set' ≡ false)
              × ((x : ℕ) → holds x set' ≡ true → (holds x set ≡ true) ⊎ Above ps t x)))

  module _ (go : ℕ → List ℕ → Option (List ℕ)) where
    each_step :
        (r : ℕ) (rs set set' : List ℕ)
        → reference_each go root (r ∷ rs) set ≡ some set'
        → ((r == root) ≡ false)
          × ((s : List ℕ) × (go r (insert_item r set) ≡ some s)
              × (reference_each go root rs s ≡ some set'))
    unfolding reference_each
    each_step r rs set set' h = elim (Bool-cases (r == root)) [
      | inl e ↦
          let f : reference_each go root (r ∷ rs) set ≡ none = rw (reference_each, e) refl in
          absurd (none-ne-some set' (sym f ∙ h))
      | inr e ↦ elim (Option-cases (go r (insert_item r set))) [
        | inl g ↦
            let f : reference_each go root (r ∷ rs) set ≡ none = rw (reference_each, e, g) refl in
            absurd (none-ne-some set' (sym f ∙ h))
        | inr (s, g) ↦
            let f : reference_each go root (r ∷ rs) set ≡ reference_each go root rs s =
              rw (reference_each, e, g) refl in
            (e, (s, g, sym f ∙ h))
      ]
    ]

    each-Extends :
        ((r : ℕ) (s s' : List ℕ) → go r s ≡ some s' → Extends r s s')
        → (t : ℕ) (rs set set' : List ℕ)
        → ((r : ℕ) → holds r rs ≡ true → holds r (r_dep t ps) ≡ true)
        → reference_each go root rs set ≡ some set'
        → Extends t set set'
    unfolding reference_each
    each-Extends spec t [] set set' w h =
        let e : set ≡ set' = some-injective set set' h in
        subst (Extends t set) e (λ d. d, (λ x k. k, (λ k. k, λ x k. inl k)))
    each-Extends spec t (r ∷ rs) set set' w h =
        let (n, (s, g, k)) = each_step r rs set set' h in
        let (d1, (m1, (o1, a1))) = spec r (insert_item r set) s g in
        let (d2, (m2, (o2, a2))) =
          each-Extends spec t rs s set' (λ x q. w x (unfold holds in ground (arith, q))) k in
        let first : holds r (r_dep t ps) ≡ true = w r (unfold holds in ground arith) in
        (
          λ d. d2 (d1 (insert_item-IsDistinct r set d)),
          (
            λ x q. m2 x (m1 x (holds-insert_item x r set ∙ ground (arith, q))),
            (
              λ q. o2 (o1 (holds-insert_item root r set ∙ rw (n, q) refl)),
              λ x q. elim (a2 x q) [
                | inr a ↦ inr a
                | inl q1 ↦ elim (a1 x q1) [
                  | inr a ↦ inr (more first a)
                  | inl q2 ↦ elim (Bool-cases (r == x)) [
                    | inl e ↦ inr (subst (Above ps t) (==→eq r x e) (one first))
                    | inr e ↦ inl (insert_item_other x r set e q2)
                  ]
                ]
              ],
            ),
          ),
        )

    -- A call is made for every item of the loop, and each of them is in the set behind it.
    each-Above :
        ((r : ℕ) (s s' : List ℕ) → go r s ≡ some s' → Extends r s s')
        → ((r x : ℕ) (s s' : List ℕ) → go r s ≡ some s' → Above ps r x → holds x s' ≡ true)
        → (t r : ℕ) (rs set set' : List ℕ)
        → ((r : ℕ) → holds r rs ≡ true → holds r (r_dep t ps) ≡ true)
        → reference_each go root rs set ≡ some set'
        → holds r rs ≡ true
        → (holds r set' ≡ true) × ((x : ℕ) → Above ps r x → holds x set' ≡ true)
    each-Above spec all t r [] set set' w h q = absurd (no_item r q)
    each-Above spec all t r (r' ∷ rs) set set' w h q =
        let (n, (s, g, k)) = each_step r' rs set set' h in
        let w' : (r : ℕ) → holds r rs ≡ true → holds r (r_dep t ps) ≡ true =
          λ x q. w x (unfold holds in ground (arith, q)) in
        let (d2, (m2, (o2, a2))) = each-Extends spec t rs s set' w' k in
        let (d1, (m1, (o1, a1))) = spec r' (insert_item r' set) s g in
        elim (Bool-cases (r' == r)) [
          | inl e ↦
              let same : r' ≡ r = ==→eq r' r e in
              (
                m2 r (m1 r (holds-insert_item r r' set ∙ rw e refl)),
                λ x a.
                    m2 x
                      (all r' x (insert_item r' set) s g (subst (λ i. Above ps i x) (sym same) a)),
              )
          | inr e ↦ each-Above spec all t r rs s set' w' k (unfold holds in ground (arith, q))
        ]

  pub reference_depend-Extends :
      (f t : ℕ) (set set' : List ℕ)
      → reference_depend f ps root t set ≡ some set'
      → Extends t set set'
  unfolding reference_depend
  reference_depend-Extends zero t set set' h = absurd (none-ne-some set' h)
  reference_depend-Extends (suc f) t set set' h =
      each-Extends (λ r s. reference_depend f ps root r s)
        (λ r s s' g. reference_depend-Extends f r s s' g) t (r_dep t ps) set set' (λ r q. q) h

  pub reference_depend-Above :
      (f t x : ℕ) (set set' : List ℕ)
      → reference_depend f ps root t set ≡ some set'
      → Above ps t x
      → holds x set' ≡ true
  unfolding reference_depend
  reference_depend-Above zero t x set set' h a = absurd (none-ne-some set' h)
  reference_depend-Above (suc f) t x set set' h a =
      let each : (r : ℕ)
          → holds r (r_dep t ps) ≡ true
          → (holds r set' ≡ true) × ((x : ℕ) → Above ps r x → holds x set' ≡ true) =
        λ r q.
          each-Above (λ r s. reference_depend f ps root r s)
            (λ r s s' g. reference_depend-Extends f r s s' g)
            (λ r x s s' g a. reference_depend-Above f r x s s' g a) t r (r_dep t ps) set set'
            (λ r q. q) h q in
      elim a [ one {r} q ↦ (each r q).0 | more {r} q b ↦ (each r q).1 x b ]
