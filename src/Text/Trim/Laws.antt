-- ===== src/Text/Trim/Laws.antt =====
-- What trimming leaves.
use libpeco.Base.{
  ℕ, true, ◌&&◌, [], ◌∷◌, ◌++◌, Bytes, All, length, ◌==◌, if◌then◌else◌, ◌≡◌, refl, sym, ap, ◌∙◌,
  arith, Bool-cases, inl, inr,
}
use libpeco.Text.Number.{is_space, skip_spaces}
use libpeco.Text.Trim.{left_trim, right_trim, trim}

abbrev pub IsSpace : ℕ → Type 0
IsSpace c = is_space c ≡ true

left_trim-kept :
    (c : ℕ) (r : Bytes)
    → is_space c ≡ true
    → left_trim (if length r == 0 && is_space c then [] else c ∷ r) ≡ left_trim r
unfolding left_trim skip_spaces
left_trim-kept c [] h = ground (arith, h)
left_trim-kept c (x ∷ r) h = ground (arith, h)

right_trim-left_trim : (s : Bytes) → right_trim (left_trim s) ≡ left_trim (right_trim s)
unfolding left_trim right_trim skip_spaces
right_trim-left_trim [] = refl
right_trim-left_trim (c ∷ s) = elim (Bool-cases (is_space c)) [
  | inl e ↦
      ap right_trim (ap (λ b. if b then skip_spaces s else c ∷ s) e)
      ∙ right_trim-left_trim s
      ∙ sym (left_trim-kept c (right_trim s) e)
  | inr e ↦ ground (arith, e)
]

left_trim-left_trim : (s : Bytes) → left_trim (left_trim s) ≡ left_trim s
unfolding left_trim skip_spaces
left_trim-left_trim [] = refl
left_trim-left_trim (c ∷ s) = ground (arith, left_trim-left_trim s)

right_trim-right_trim : (s : Bytes) → right_trim (right_trim s) ≡ right_trim s
unfolding right_trim
right_trim-right_trim [] = refl
right_trim-right_trim (c ∷ s) = ground (arith, right_trim-right_trim s)

front : (s : Bytes) → (a : Bytes) × (All IsSpace a × (s ≡ a ++ left_trim s))
unfolding left_trim skip_spaces
front [] = ([], (tt, refl))
front (c ∷ s) = elim (Bool-cases (is_space c)) [
  | inl e ↦ let (a, (h, p)) = front s in (c ∷ a, ((e, h), rw e (ap (◌∷◌ c) p)))
  | inr e ↦ ([], (tt, rw e refl))
]

none_left : (c : ℕ) (r : Bytes) → (length r == 0 && is_space c) ≡ true → r ≡ []
none_left c [] h = refl
none_left c (x ∷ r) h = ground (arith, h)

back : (s : Bytes) → (b : Bytes) × (All IsSpace b × (s ≡ right_trim s ++ b))
unfolding right_trim
back [] = ([], (tt, refl))
back (c ∷ s) = elim (Bool-cases (length (right_trim s) == 0 && is_space c)) [
  | inl e ↦
      let (b, (h, p)) = back s in
      (
        c ∷ b,
        (
          (ground (arith, e), h),
          rw e (ap (◌∷◌ c) (p ∙ ap (λ r. r ++ b) (none_left c (right_trim s) e))),
        ),
      )
  | inr e ↦ let (b, (h, p)) = back s in (b, (h, rw e (ap (◌∷◌ c) p)))
]

-- trim takes white space away at the start and at the end and nothing else, and what it leaves has
-- no more of it at either end.
pub trim-IsTrimmed :
    (s : Bytes)
    → ((a : Bytes) × (b : Bytes) × (All IsSpace a × (All IsSpace b × (s ≡ (a ++ trim s) ++ b))))
      × ((left_trim (trim s) ≡ trim s) × (right_trim (trim s) ≡ trim s))
unfolding trim
trim-IsTrimmed s =
    let (b, (hb, p)) = back s in
    let (a, (ha, q)) = front (right_trim s) in
    (
      (a, b, (ha, (hb, p ∙ ap (λ t. t ++ b) q))),
      (
        left_trim-left_trim (right_trim s),
        right_trim-left_trim (right_trim s) ∙ ap left_trim (right_trim-right_trim s),
      ),
    )
