-- ===== src/Basic/Depend/Sets.antt =====
-- Sets of items as lists.
use libpeco.Base.{
  ℕ, suc, ◌≤◌, true, false, List, [], ◌∷◌, ◌≡◌, arith, length, ◌==◌, if◌then◌else◌, Bool-cases, inl,
  inr,
}
use libpeco.Basic.Depend.{holds, insert_item}

abbrev pub IsDistinct : List ℕ → Type 0
IsDistinct [] = Unit
IsDistinct (s ∷ ss) = (holds s ss ≡ false) × IsDistinct ss

abbrev pub IsWithin : List ℕ → List ℕ → Type 0
IsWithin xs ys = (x : ℕ) → holds x xs ≡ true → holds x ys ≡ true

remove_item : ℕ → List ℕ → List ℕ
remove_item x [] = []
remove_item x (y ∷ ys) = if y == x then ys else y ∷ remove_item x ys

length-remove_item :
    (x : ℕ) (ys : List ℕ) → holds x ys ≡ true → suc (length (remove_item x ys)) ≡ length ys
unfolding holds remove_item
length-remove_item x [] h = absurd (cc)
length-remove_item x (y ∷ ys) h = ground (arith, length-remove_item x ys)

holds-remove_item :
    (z x : ℕ) (ys : List ℕ)
    → holds z ys ≡ true
    → (z == x) ≡ false
    → holds z (remove_item x ys) ≡ true
unfolding holds remove_item
holds-remove_item z x [] h k = absurd (cc)
holds-remove_item z x (y ∷ ys) h k = ground (arith, holds-remove_item z x ys)

holds_other : (z x : ℕ) (xs : List ℕ) → holds x xs ≡ false → holds z xs ≡ true → (z == x) ≡ false
unfolding holds
holds_other z x [] h k = absurd (cc)
holds_other z x (y ∷ xs) h k = ground (arith, holds_other z x xs)

holds_behind : (z x : ℕ) (xs : List ℕ) → holds z xs ≡ true → holds z (x ∷ xs) ≡ true
unfolding holds
holds_behind z x xs h = ground arith

holds_first : (x : ℕ) (xs : List ℕ) → holds x (x ∷ xs) ≡ true
unfolding holds
holds_first x xs = ground arith

-- A set within another one is no larger.
pub length-IsWithin : (xs ys : List ℕ) → IsDistinct xs → IsWithin xs ys → length xs ≤ length ys
length-IsWithin [] ys d w = omega arith
length-IsWithin (x ∷ xs) ys (h, d) w = omega (
  arith,
  length-remove_item x ys (w x (holds_first x xs)),
  length-IsWithin xs (remove_item x ys) d
      (λ z k. holds-remove_item z x ys (w z (holds_behind z x xs k)) (holds_other z x xs h k)),
)

pub insert_item-IsDistinct : (x : ℕ) (xs : List ℕ) → IsDistinct xs → IsDistinct (insert_item x xs)
unfolding insert_item
insert_item-IsDistinct x xs d = elim (Bool-cases (holds x xs)) [
  | inl e ↦ rw e d
  | inr e ↦ rw e (e, d)
]

pub holds-insert_item :
    (z x : ℕ) (xs : List ℕ) → holds z (insert_item x xs) ≡ (if x == z then true else holds z xs)
unfolding insert_item holds
holds-insert_item z x xs = ground arith
