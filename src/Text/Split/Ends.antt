-- ===== src/Text/Split/Ends.antt =====
-- The loop of split ends.
use libpeco.Base.{
  ℕ, zero, suc, ◌+◌, ◌≤◌, ◌<◌, List, [], ◌∷◌, Option, none, some, Bytes, All, length, drop, ltb,
  ◌==◌, ◌≡◌, ◌≢◌, refl, arith, Bool-cases, Option-cases, inl, inr,
}
use libpeco.Text.Split.{find_in, find, nearest, is_before, split_from, split, end_of, add_component}

-- A separator that was found is not before `pos` and not empty.
abbrev IsAhead : ℕ → Option ℕ × ℕ → Type 0
IsAhead pos (none, size) = size ≡ 0
IsAhead pos (some p, size) = (pos ≤ p) × (0 < size)

length-some : (c : Bytes) → c ≢ [] → 0 < length c
length-some [] h = absurd (h refl)
length-some (x ∷ c) h = omega arith

shifted :
    (pos n : ℕ) (r : Option ℕ) → elim r [ none ↦ none | some p ↦ some (pos + p) ] ≡ some n → pos ≤ n
shifted pos n none h = ground (arith, h)
shifted pos n (some p) h = ground (arith, h)

find-le : (value c : Bytes) (pos n : ℕ) → find value c pos ≡ some n → pos ≤ n
unfolding find
find-le value c pos n h = shifted pos n (find_in c (drop pos value)) h

end_of-IsAhead : (pos n : ℕ) (r : Option ℕ × ℕ) → pos < n → IsAhead pos r → pos < end_of n r.0 + r.1
end_of-IsAhead pos n (none, size) h a = omega arith
end_of-IsAhead pos n (some p, size) h a = omega (arith, a.0, a.1)

nearest-IsAhead :
    (value : Bytes) (cs : List Bytes) (pos : ℕ) (last : Option ℕ) (size : ℕ)
    → All (λ c. c ≢ []) cs
    → IsAhead pos (last, size)
    → IsAhead pos (nearest value cs pos last size)
unfolding nearest
nearest-IsAhead value [] pos last size h a = a
nearest-IsAhead value (c ∷ cs) pos last size h a = elim (Option-cases (find value c pos)) [
  | inl e ↦ rw (e, nearest) (nearest-IsAhead value cs pos last size h.1 a)
  | inr q ↦ elim (Bool-cases (is_before q.0 last)) [
    | inl b ↦
        rw (q.1, nearest, b)
          (nearest-IsAhead value cs pos (some q.0) (length c) h.1
            (find-le value c pos q.0 q.1, length-some c h.0))
    | inr b ↦ rw (q.1, nearest, b) (nearest-IsAhead value cs pos last size h.1 a)
  ]
]

module _ (value : Bytes) (cs : List Bytes) (h : All (λ c. c ≢ []) cs) where
  split_from-some :
      (f pos : ℕ)
      → pos < length value
      → length value ≤ pos + f
      → (ws : List Bytes) × (split_from f value cs pos ≡ some ws)
  unfolding split_from
  split_from-some zero pos hp hf = absurd (omega arith)
  split_from-some (suc f) pos hp hf =
      let found = nearest value cs pos none 0 in
      let last = end_of (length value) found.0 in
      elim (Bool-cases (ltb (last + found.1) (length value))) [
        | inl e ↦
            let ahead =
              end_of-IsAhead pos (length value) found hp
                (nearest-IsAhead value cs pos none 0 h refl) in
            let rest = split_from-some f (last + found.1) (ground arith) (omega (arith, ahead)) in
            (add_component value pos last rest.0, rw (e, rest.1) refl)
        | inr e ↦ (add_component value pos last [], rw e refl)
      ]

  -- With separators none of which is empty, split returns, after at most as many rounds as the
  -- string has bytes.
  pub split-some : (ws : List Bytes) × (split value cs ≡ some ws)
  unfolding split
  split-some = elim (Bool-cases (length value == 0)) [
    | inl e ↦ ([], rw e refl)
    | inr e ↦
        let r = split_from-some (length value) 0 (ground arith) (omega arith) in
        (r.0, rw (e, r.1) refl)
  ]
