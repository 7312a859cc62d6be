-- ===== src/Text/Split.antt =====
-- split and join of src/basic/stringutil.h. A separator is a string, or a character, which is a
-- string of one byte here; what join puts between the items is a string, and the items are strings.
pub mod Laws
pub mod Ends
mod Tests
use libpeco.Base.{
  ℕ, zero, suc, ◌+◌, ◌-◌, Bool, true, false, List, [], ◌∷◌, ◌++◌, Option, none, some, Bytes, length,
  take, drop, ltb, ◌==◌, if◌then◌else◌, ◌>>=◌,
}

-- std::string::find of `c`, as an offset.
abbrev pub starts_with : Bytes → Bytes → Bool
starts_with [] s = true
starts_with (x ∷ c) [] = false
starts_with (x ∷ c) (y ∷ s) = if x == y then starts_with c s else false

unfoldable pub find_in : Bytes → Bytes → Option ℕ
find_in c [] = if starts_with c [] then some 0 else none
find_in c (y ∷ s) =
    if starts_with c (y ∷ s)
    then some 0
    else elim (find_in c s) [ none ↦ none | some p ↦ some (suc p) ]

unfoldable pub find : Bytes → Bytes → ℕ → Option ℕ
unfolding find_in
find value c pos = elim (find_in c (drop pos value)) [ none ↦ none | some p ↦ some (pos + p) ]

abbrev pub is_before : ℕ → Option ℕ → Bool
is_before n none = true
is_before n (some p) = ltb n p

-- The nearest separator from `pos` on, and its size; of two at one place the first.
unfoldable pub nearest : Bytes → List Bytes → ℕ → Option ℕ → ℕ → Option ℕ × ℕ
unfolding find
nearest value [] pos last size = (last, size)
nearest value (c ∷ cs) pos last size = elim (find value c pos) [
  | none ↦ nearest value cs pos last size
  | some n ↦
      if is_before n last
      then nearest value cs pos (some n) (length c)
      else nearest value cs pos last size
]

abbrev pub end_of : ℕ → Option ℕ → ℕ
end_of n none = n
end_of n (some p) = p

abbrev pub add_component : Bytes → ℕ → ℕ → List Bytes → List Bytes
add_component value pos last rest =
    if ltb pos last then take (last - pos) (drop pos value) ∷ rest else rest

-- The loop from `pos` on, for at most `f` rounds; `none` if they are not enough, as with an empty
-- separator, for which the loop does not end.
unfoldable pub split_from : ℕ → Bytes → List Bytes → ℕ → Option (List Bytes)
unfolding nearest
split_from zero value cs pos = none
split_from (suc f) value cs pos =
    let found = nearest value cs pos none 0 in
    let last = end_of (length value) found.0 in
    let rest = split_from f value cs (last + found.1) in
    if ltb (last + found.1) (length value)
    then (do components ← rest; some (add_component value pos last components))
    else some (add_component value pos last [])

unfoldable pub split : Bytes → List Bytes → Option (List Bytes)
unfolding split_from
split value cs = if length value == 0 then some [] else split_from (length value) value cs 0

unfoldable pub join : List Bytes → Bytes → Bytes
join [] c = []
join (x ∷ []) c = x
join (x ∷ y ∷ ys) c = x ++ (c ++ join (y ∷ ys) c)
