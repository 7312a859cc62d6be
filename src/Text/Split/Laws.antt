-- ===== src/Text/Split/Laws.antt =====
-- What split makes of items that join put together, and when its loop ends.
use libpeco.Base.{
  ℕ, zero, suc, ◌+◌, ◌-◌, ◌≤◌, ◌<◌, drop, Option-cases, inl, inr, true, false, List, [], ◌∷◌, ◌++◌,
  append_assoc, append-nil, none, some, Bytes, All, All-append, length, length-append, take_append,
  drop_append, ltb, ◌==◌, ◌≡◌, ◌≢◌, refl, sym, ap, subst, ◌∙◌, arith,
}
use libpeco.Text.Split.{find_in, find, nearest, split_from, split, join, add_component, end_of}

-- An item between separators.
abbrev pub IsItem : ℕ → Bytes → Type 0
IsItem c w = (w ≢ []) × All (λ x. x ≢ c) w

find_in-append :
    (c : ℕ) (w s : Bytes) → All (λ x. x ≢ c) w → find_in (c ∷ []) (w ++ c ∷ s) ≡ some (length w)
unfolding find_in
find_in-append c [] s h = ground arith
find_in-append c (x ∷ w) s h = ground (arith, find_in-append c w s h.1)

find_in-none : (c : ℕ) (w : Bytes) → All (λ x. x ≢ c) w → find_in (c ∷ []) w ≡ none
unfolding find_in
find_in-none c [] h = refl
find_in-none c (x ∷ w) h = ground (arith, find_in-none c w h.1)

-- The separator is found behind the item, or nowhere.
nearest-append :
    (c : ℕ) (pre w s : Bytes)
    → All (λ x. x ≢ c) w
    → nearest (pre ++ (w ++ c ∷ s)) ((c ∷ []) ∷ []) (length pre) none 0
      ≡ (some (length pre + length w), 1)
unfolding nearest find
nearest-append c pre w s h =
    let found : find (pre ++ (w ++ c ∷ s)) (c ∷ []) (length pre) ≡ some (length pre + length w) =
      rw (find, drop_append pre (w ++ c ∷ s), find_in-append c w s h) refl in
    rw (nearest, found) refl

nearest-none :
    (c : ℕ) (pre w : Bytes)
    → All (λ x. x ≢ c) w
    → nearest (pre ++ w) ((c ∷ []) ∷ []) (length pre) none 0 ≡ (none, 0)
unfolding nearest find
nearest-none c pre w h =
    let found : find (pre ++ w) (c ∷ []) (length pre) ≡ none =
      rw (find, drop_append pre w, find_in-none c w h) refl in
    rw (nearest, found) refl

add_component-append :
    (pre w s : Bytes) (last : ℕ) (rest : List Bytes)
    → w ≢ []
    → last ≡ length pre + length w
    → add_component (pre ++ (w ++ s)) (length pre) last rest ≡ w ∷ rest
add_component-append pre [] s last rest h e = absurd (h refl)
add_component-append pre (x ∷ w) s last rest h e =
    let below : ltb (length pre) last ≡ true = ground arith in
    let size : last - length pre ≡ length (x ∷ w) = omega (arith, e) in
    rw (below, size, drop_append pre (x ∷ (w ++ s)), take_append (x ∷ w) s) refl

length-join : (c : ℕ) (w : Bytes) (ws : List Bytes) → w ≢ [] → 0 < length (join (w ∷ ws) (c ∷ []))
unfolding join
length-join c [] ws h = absurd (h refl)
length-join c (x ∷ w) [] h = omega arith
length-join c (x ∷ w) (y ∷ ws) h = omega arith

split_from-join :
    (f c : ℕ) (pre w : Bytes) (ws : List Bytes)
    → All (IsItem c) (w ∷ ws)
    → length (join (w ∷ ws) (c ∷ [])) ≤ f
    → split_from f (pre ++ join (w ∷ ws) (c ∷ [])) ((c ∷ []) ∷ []) (length pre) ≡ some (w ∷ ws)
unfolding split_from join
split_from-join zero c pre w ws h hf = absurd (omega (arith, length-join c w ws h.0.0, hf))
split_from-join (suc f) c pre w [] h hf =
    let size = length-append pre w in
    let ends : ltb (length (pre ++ w) + 0) (length (pre ++ w)) ≡ false = ground arith in
    rw (nearest-none c pre w h.0.1, ends)
      (ap some (
        subst (λ v. add_component (pre ++ v) (length pre) (length (pre ++ v)) [] ≡ w ∷ [])
          (append-nil w)
          (add_component-append pre w [] (length (pre ++ (w ++ []))) [] h.0.0
            (omega (arith, length-append pre (w ++ []), length-append w [])))))
split_from-join (suc f) c pre w (y ∷ ys) h hf =
    let more = join (y ∷ ys) (c ∷ []) in
    let last = length pre + length w in
    let size : length (pre ++ (w ++ c ∷ more)) ≡ last + suc (length more) =
      omega (arith, length-append pre (w ++ c ∷ more), length-append w (c ∷ more)) in
    let some_more = length-join c y ys h.1.0.0 in
    let goes_on : ltb (last + 1) (length (pre ++ (w ++ c ∷ more))) ≡ true =
      ground (arith, size, some_more) in
    let front : (pre ++ (w ++ c ∷ [])) ++ more ≡ pre ++ (w ++ c ∷ more) =
      append_assoc pre (w ++ c ∷ []) more ∙ ap (λ v. pre ++ v) (append_assoc w (c ∷ []) more) in
    let behind : length (pre ++ (w ++ c ∷ [])) ≡ last + 1 =
      omega (arith, length-append pre (w ++ c ∷ []), length-append w (c ∷ [])) in
    let rest : split_from f (pre ++ (w ++ c ∷ more)) ((c ∷ []) ∷ []) (last + 1) ≡ some (y ∷ ys) =
      rw (sym front, sym behind)
        (split_from-join f c (pre ++ (w ++ c ∷ [])) y ys h.1
          (omega (arith, hf, length-append w (c ∷ more)))) in
    rw (nearest-append c pre w more h.0.1, goes_on, rest)
      (ap some (add_component-append pre w (c ∷ more) last (y ∷ ys) h.0.0 refl))

-- Items that are joined by one byte, and that are not empty and do not hold this byte, are what
-- split by this byte gives; in particular its loop ends, after at most as many rounds as there are
-- bytes.
pub split-join :
    (c : ℕ) (ws : List Bytes)
    → All (IsItem c) ws
    → split (join ws (c ∷ [])) ((c ∷ []) ∷ []) ≡ some ws
unfolding split join
split-join c [] h = refl
split-join c (w ∷ ws) h =
    let some_bytes : (length (join (w ∷ ws) (c ∷ [])) == 0) ≡ false =
      ground (arith, length-join c w ws h.0.0) in
    rw some_bytes (split_from-join (length (join (w ∷ ws) (c ∷ []))) c [] w ws h (omega arith))

-- A zero as one more separator is of no effect on a text that holds none.
nearest_zero :
    (c : ℕ) (s : Bytes) (i : ℕ)
    → All (λ x. x ≢ 0) (drop i s)
    → nearest s ((c ∷ []) ∷ (0 ∷ []) ∷ []) i none 0 ≡ nearest s ((c ∷ []) ∷ []) i none 0
unfolding nearest find
nearest_zero c s i h =
    let f : find s (0 ∷ []) i ≡ none = rw (find, find_in-none 0 (drop i s) h) refl in
    elim (Option-cases (find s (c ∷ []) i)) [
      | inl e ↦ rw (e, nearest, f) refl
      | inr (n, e) ↦ rw (e, nearest, f) refl
    ]

All-drop : (i : ℕ) (s : Bytes) → All (λ x. x ≢ 0) s → All (λ x. x ≢ 0) (drop i s)
All-drop zero s h = h
All-drop (suc i) [] h = tt
All-drop (suc i) (x ∷ s) (h, hs) = All-drop i s hs

split_from_zero :
    (c f : ℕ) (s : Bytes) (i : ℕ)
    → All (λ x. x ≢ 0) s
    → split_from f s ((c ∷ []) ∷ (0 ∷ []) ∷ []) i ≡ split_from f s ((c ∷ []) ∷ []) i
unfolding split_from
split_from_zero c zero s i h = refl
split_from_zero c (suc f) s i h =
    rw
      (
        nearest_zero c s i (All-drop i s h),
        split_from_zero c f s
            (end_of (length s) (nearest s ((c ∷ []) ∷ []) i none 0).0
              + (nearest s ((c ∷ []) ∷ []) i none 0).1)
            h,
      )
      refl

pub split_zero :
    (c : ℕ) (s : Bytes)
    → All (λ x. x ≢ 0) s
    → split s ((c ∷ []) ∷ (0 ∷ []) ∷ []) ≡ split s ((c ∷ []) ∷ [])
unfolding split
split_zero c s h = rw (split_from_zero c (length s) s 0 h) refl

-- Two items around a byte are what split by this byte and zero gives, and one item is itself.
pub split_pair :
    (c : ℕ) (k v : Bytes)
    → c ≢ 0
    → IsItem c k
    → IsItem c v
    → All (λ x. x ≢ 0) k
    → All (λ x. x ≢ 0) v
    → split (k ++ c ∷ v) ((c ∷ []) ∷ (0 ∷ []) ∷ []) ≡ some (k ∷ v ∷ [])
split_pair c k v n hk hv zk zv =
    split_zero c (k ++ c ∷ v) (All-append (λ x. x ≢ 0) k (c ∷ v) zk (n, zv))
    ∙ unfold join in split-join c (k ∷ v ∷ []) (hk, (hv, tt))

pub split_one :
    (c : ℕ) (k : Bytes)
    → IsItem c k
    → All (λ x. x ≢ 0) k
    → split k ((c ∷ []) ∷ (0 ∷ []) ∷ []) ≡ some (k ∷ [])
split_one c k h z = split_zero c k z ∙ unfold join in split-join c (k ∷ []) (h, tt)
