-- ===== src/Basic/FilterNode/Entries.antt =====
-- The words behind one entry of the sub nodes, put or erased.
use libpeco.Base.{
  suc, ◌≤◌, Bool, true, false, List, [], ◌∷◌, none, some, ◌≡◌, refl, sym, ap, ◌∙◌, arith,
  if◌then◌else◌, Bool-cases, inl, inr,
}
use libpeco.Basic.FilterNode.{
  Node, SubNodes, node, end, sub, sub_filter_tree, with_subs, count, contains_sub_filter_tree,
  find_sub, put_sub, erase_sub, matching_sub_node,
}
use libpeco.Basic.FilterNode.Words.{value_at}
use libpeco.Basic.FilterNode.Laws.{find_sub-put_sub}

module _ {K V : Type 0} (eq : K → K → Bool) where
  pub value_at_leaf :
      (n : Node K V) (j : K) (w : List K)
      → contains_sub_filter_tree n ≡ false
      → value_at eq n (j ∷ w) ≡ none
  unfolding count value_at find_sub
  value_at_leaf (node r m v t end) j w h = refl
  value_at_leaf (node r m v t (sub k n s)) j w h = ground arith

module _ {K V : Type 0} (eq : K → K → Bool) (sound : (x y : K) → eq x y ≡ true → x ≡ y)
    (same : (x : K) → eq x x ≡ true) where
  pub find_sub-erase_sub :
      (j k : K) (s : SubNodes K V)
      → find_sub eq j (erase_sub eq k s) ≡ (if eq k j then none else find_sub eq j s)
  unfolding find_sub erase_sub
  find_sub-erase_sub j k end = ground arith
  find_sub-erase_sub j k (sub i n s) =
      ground (arith, sound i k, sound i j, sound k j, same k, find_sub-erase_sub j k s)

  pub count-erase_sub-le : (k : K) (s : SubNodes K V) → count (erase_sub eq k s) ≤ count s
  unfolding count erase_sub
  count-erase_sub-le k end = omega arith
  count-erase_sub-le k (sub i n s) = ground (arith, count-erase_sub-le k s)

  -- An entry that is put can be erased, which leaves fewer.
  pub count-erase_sub-put_sub :
      (k : K) (c : Node K V) (s : SubNodes K V)
      → suc (count (erase_sub eq k (put_sub eq k c s))) ≤ count (put_sub eq k c s)
  unfolding count erase_sub put_sub
  count-erase_sub-put_sub k c end = rw (same k) (omega arith)
  count-erase_sub-put_sub k c (sub i n s) =
      ground (arith, count-erase_sub-put_sub k c s, count-erase_sub-le k s)

  pub value_at-put_sub :
      (n c : Node K V) (k j : K) (w : List K)
      → value_at eq (with_subs (put_sub eq k c (sub_filter_tree n)) n) (j ∷ w)
        ≡ (if eq k j then value_at eq c w else value_at eq n (j ∷ w))
  unfolding value_at
  value_at-put_sub (node r m v t s) c k j w = elim (Bool-cases (eq k j)) [
    | inl e ↦ rw (find_sub-put_sub eq sound same j k c s, e) refl
    | inr e ↦ rw (find_sub-put_sub eq sound same j k c s, e) refl
  ]

  pub value_at-erase_sub :
      (n c : Node K V) (k j : K) (w : List K)
      → value_at eq (with_subs (erase_sub eq k (put_sub eq k c (sub_filter_tree n))) n) (j ∷ w)
        ≡ (if eq k j then none else value_at eq n (j ∷ w))
  unfolding value_at
  value_at-erase_sub (node r m v t s) c k j w = elim (Bool-cases (eq k j)) [
    | inl e ↦ rw (find_sub-erase_sub j k (put_sub eq k c s), e) refl
    | inr e ↦
        rw (find_sub-erase_sub j k (put_sub eq k c s), find_sub-put_sub eq sound same j k c s, e)
          refl
  ]

  pub value_at_below :
      (n c : Node K V) (k j : K) (w : List K)
      → matching_sub_node eq k n ≡ some c
      → eq k j ≡ true
      → value_at eq n (j ∷ w) ≡ value_at eq c w
  unfolding value_at
  value_at_below n c k j w e g =
      ap (λ i. value_at eq n (i ∷ w)) (sym (sound k j g)) ∙ rw (e, value_at) refl

  pub put_sub_same :
      (n c : Node K V) (k : K) (w : List K)
      → matching_sub_node eq k n ≡ some c
      → value_at eq (with_subs (put_sub eq k c (sub_filter_tree n)) n) w ≡ value_at eq n w
  unfolding value_at
  put_sub_same (node r m v t s) c k [] e = refl
  put_sub_same n c k (j ∷ w) e = elim (Bool-cases (eq k j)) [
    | inl g ↦ value_at-put_sub n c k j w ∙ rw g (sym (value_at_below n c k j w e g))
    | inr g ↦ value_at-put_sub n c k j w ∙ rw g refl
  ]

  pub erase_sub-put_sub-put_sub :
      (n c c' : Node K V) (k : K) (w : List K)
      → matching_sub_node eq k n ≡ none
      → value_at eq
          (with_subs (erase_sub eq k (put_sub eq k c' (put_sub eq k c (sub_filter_tree n)))) n)
          w
        ≡ value_at eq n w
  unfolding value_at
  erase_sub-put_sub-put_sub (node r m x t s) c c' k [] e = refl
  erase_sub-put_sub-put_sub (node r m x t s) c c' k (i ∷ w) e =
      value_at-erase_sub (node r m x t (put_sub eq k c s)) c' k i w ∙ elim (Bool-cases (eq k i)) [
        | inl g ↦ rw g (
            sym (
              ap (λ y. value_at eq (node r m x t s) (y ∷ w)) (sym (sound k i g))
              ∙ rw (e, value_at) refl))
        | inr g ↦ rw g (value_at-put_sub (node r m x t s) c k i w ∙ rw g refl)
      ]
