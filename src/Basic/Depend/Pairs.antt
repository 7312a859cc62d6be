-- ===== src/Basic/Depend/Pairs.antt =====
-- The pairs that a target adds, and how much the loop over the queue has left to do.
use libpeco.Base.{
  ℕ, ◌+◌, ◌≤◌, true, false, List, [], ◌∷◌, ◌++◌, ◌≡◌, refl, ap, ◌∙◌, arith, length, ◌==◌, ==→eq,
  if◌then◌else◌, inl, inr, Bool-cases,
}
use libpeco.Basic.Depend.{holds, r_dep, pairs_of}

pub holds-append :
    (x : ℕ) (xs ys : List ℕ) → holds x (xs ++ ys) ≡ (if holds x xs then true else holds x ys)
unfolding holds
holds-append x [] ys = refl
holds-append x (y ∷ xs) ys = ground (arith, holds-append x xs ys)

pub r_dep-append : (d : ℕ) (ps qs : List (ℕ × ℕ)) → r_dep d (ps ++ qs) ≡ r_dep d ps ++ r_dep d qs
unfolding r_dep
r_dep-append d [] qs = refl
r_dep-append d ((t, e) ∷ ps) qs = elim (Bool-cases (e == d)) [
  | inl h ↦ rw (h, r_dep-append d ps qs) refl
  | inr h ↦ rw (h, r_dep-append d ps qs) refl
]

pub holds-r_dep-pairs_of :
    (t d s : ℕ) (ds : List ℕ)
    → holds t (r_dep d (pairs_of s ds)) ≡ (if s == t then holds d ds else false)
unfolding holds r_dep pairs_of
holds-r_dep-pairs_of t d s [] = ground arith
holds-r_dep-pairs_of t d s (e ∷ ds) = ground (arith, holds-r_dep-pairs_of t d s ds)

pub holds-r_dep :
    (t d s : ℕ) (ps : List (ℕ × ℕ)) (ds : List ℕ)
    → holds t (r_dep d (ps ++ pairs_of s ds))
      ≡ (if holds t (r_dep d ps) then true else if s == t then holds d ds else false)
holds-r_dep t d s ps ds =
    ap (holds t) (r_dep-append d ps (pairs_of s ds))
    ∙ holds-append t (r_dep d ps) (r_dep d (pairs_of s ds))
    ∙ ap (λ b. if holds t (r_dep d ps) then true else b) (holds-r_dep-pairs_of t d s ds)

-- How many dependencies the items of a list have that are no targets yet.
unfoldable pub weight : (ℕ → List ℕ) → List ℕ → List ℕ → ℕ
weight f_dep [] ts = 0
weight f_dep (u ∷ us) ts = (if holds u ts then 0 else length (f_dep u)) + weight f_dep us ts

pub weight_le :
    (f_dep : ℕ → List ℕ) (us : List ℕ) (t : ℕ) (ts : List ℕ)
    → weight f_dep us (t ∷ ts) ≤ weight f_dep us ts
unfolding weight holds
weight_le f_dep [] t ts = omega arith
weight_le f_dep (u ∷ us) t ts = ground (arith, weight_le f_dep us t ts)

pub weight_lt :
    (f_dep : ℕ → List ℕ) (us : List ℕ) (t : ℕ) (ts : List ℕ)
    → holds t us ≡ true
    → holds t ts ≡ false
    → weight f_dep us (t ∷ ts) + length (f_dep t) ≤ weight f_dep us ts
unfolding weight holds
weight_lt f_dep [] t ts h k = absurd (cc)
weight_lt f_dep (u ∷ us) t ts h k = elim (Bool-cases (u == t)) [
  | inl e ↦
      let same : u ≡ t = ==→eq u t e in
      ground (
        arith,
        k,
        weight_le f_dep us t ts,
        ap (λ i. length (f_dep i)) same,
        ap (λ i. holds i ts) same,
      )
  | inr e ↦ ground (arith, weight_lt f_dep us t ts)
]
