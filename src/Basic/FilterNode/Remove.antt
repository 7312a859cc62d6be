-- ===== src/Basic/FilterNode/Remove.antt =====
-- What remove_filter_tree does to the words of the tree.
use libpeco.Base.{
  Bool, true, false, not, ◌&&◌, List, [], ◌∷◌, none, some, ◌≡◌, refl, sym, ap, ◌∙◌, arith,
  if◌then◌else◌, length, take, Bool-cases, Option-cases, inl, inr,
}
use libpeco.Basic.FilterNode.{
  Node, node, is_root_node, is_terminated, sub_filter_tree, with_subs, count,
  contains_sub_filter_tree, put_sub, erase_sub, matching_sub_node, match_from, match_stack,
  remove_last, is_kept, remove_from, remove_stack, remove_filter_tree,
}
use libpeco.Basic.FilterNode.Words.{same_word, value_at}
use libpeco.Basic.FilterNode.Entries.{
  value_at_leaf, count-erase_sub-put_sub, value_at-put_sub, value_at-erase_sub, value_at_below,
  put_sub_same,
}

climbs-cases : (a b : Bool) → (a && not b) ≡ true → (a ≡ true) × (b ≡ false)
climbs-cases true true h = absurd (cc)
climbs-cases true false h = (refl, refl)
climbs-cases false b h = absurd (cc)

is_kept_terminated : {K V : Type 0} (n : Node K V) → is_terminated n ≡ true → is_kept n ≡ true
unfolding is_kept
is_kept_terminated n t = ground arith

same_word_below :
    {K : Type 0} (eq : K → K → Bool) (k j : K) (u w : List K)
    → eq k j ≡ true
    → same_word eq (k ∷ u) (j ∷ w) ≡ false
    → same_word eq u w ≡ false
unfolding same_word
same_word_below eq k j u w g h = sym (ap (λ b. if b then same_word eq u w else false) g) ∙ h

module _ {K V : Type 0} (eq : K → K → Bool) (sound : (x y : K) → eq x y ≡ true → x ≡ y)
    (same : (x : K) → eq x x ≡ true) where
  -- A sub node that keeps the other words is put in place of the old one.
  put_sub-other :
      (n c c' : Node K V) (k : K) (u w : List K)
      → matching_sub_node eq k n ≡ some c
      → ((w' : List K) → same_word eq u w' ≡ false → value_at eq c' w' ≡ value_at eq c w')
      → same_word eq (k ∷ u) w ≡ false
      → value_at eq (with_subs (put_sub eq k c' (sub_filter_tree n)) n) w ≡ value_at eq n w
  unfolding same_word value_at
  put_sub-other (node r m v t s) c c' k u [] e f h = refl
  put_sub-other n c c' k u (j ∷ w) e f h = elim (Bool-cases (eq k j)) [
    | inl g ↦
        value_at-put_sub eq sound same n c' k j w
        ∙ rw g (
            f w (same_word_below eq k j u w g h) ∙ sym (value_at_below eq sound same n c k j w e g))
    | inr g ↦ value_at-put_sub eq sound same n c' k j w ∙ rw g refl
  ]

  -- A sub node without other words is erased.
  erase_sub-other :
      (n c c' : Node K V) (k : K) (u w : List K)
      → matching_sub_node eq k n ≡ some c
      → ((w' : List K) → same_word eq u w' ≡ false → value_at eq c w' ≡ none)
      → same_word eq (k ∷ u) w ≡ false
      → value_at eq (with_subs (erase_sub eq k (put_sub eq k c' (sub_filter_tree n))) n) w
        ≡ value_at eq n w
  unfolding same_word value_at
  erase_sub-other (node r m v t s) c c' k u [] e f h = refl
  erase_sub-other n c c' k u (j ∷ w) e f h = elim (Bool-cases (eq k j)) [
    | inl g ↦
        value_at-erase_sub eq sound same n c' k j w
        ∙ rw g (
            sym (value_at_below eq sound same n c k j w e g ∙ f w (same_word_below eq k j u w g h)))
    | inr g ↦ value_at-erase_sub eq sound same n c' k j w ∙ rw g refl
  ]

  -- A node that is not kept had only the words of one sub node.
  is_kept-other :
      (n c c' : Node K V) (k : K) (u w : List K)
      → matching_sub_node eq k n ≡ some c
      → ((w' : List K) → same_word eq u w' ≡ false → value_at eq c w' ≡ none)
      → same_word eq (k ∷ u) w ≡ false
      → is_kept (with_subs (put_sub eq k c' (sub_filter_tree n)) n) ≡ false
      → value_at eq n w ≡ none
  unfolding same_word value_at is_kept count
  is_kept-other (node r m v t s) c c' k u [] e f h q = ground arith
  is_kept-other (node r m v t s) c c' k u (j ∷ w) e f h q =
      let n = node r m v t s in
      let s' = put_sub eq k c' s in
      elim (Bool-cases (eq k j)) [
        | inl g ↦ value_at_below eq sound same n c k j w e g ∙ f w (same_word_below eq k j u w g h)
        | inr g ↦
            sym (value_at-erase_sub eq sound same n c' k j w ∙ rw g refl)
            ∙ value_at_leaf eq (node r m v t (erase_sub eq k s')) j w
                (ground (arith, count-erase_sub-put_sub eq sound same k c' s))
      ]

  -- The loop keeps every word but its own, and where it has come past a node, that node has none
  -- of the other words.
  remove_from-other :
      (n : Node K V) (u w : List K)
      → same_word eq u w ≡ false
      → (value_at eq (remove_from eq n u).0 w ≡ value_at eq n w)
        × ((remove_from eq n u).1 ≡ true → value_at eq n w ≡ none)
  unfolding same_word remove_from remove_last value_at
  remove_from-other n [] [] h = absurd (cc)
  remove_from-other (node r m v t s) [] (j ∷ w) h =
      let n = node r m v t s in
      elim (Bool-cases (contains_sub_filter_tree n)) [
        | inl e ↦ rw (e, remove_from) (refl, λ g. absurd (cc))
        | inr e ↦ rw (e, remove_from) (refl, λ g. value_at_leaf eq n j w e)
      ]
  remove_from-other (node r m v t s) (k ∷ u) w h =
      let n = node r m v t s in
      elim (Option-cases (matching_sub_node eq k n)) [
        | inl e ↦ rw (e, remove_from) (refl, λ g. absurd (cc))
        | inr (c, e) ↦
            let s' = put_sub eq k (remove_from eq c u).0 s in
            elim (Bool-cases ((remove_from eq c u).1 && not (is_kept (node r m v t s')))) [
              | inl x ↦
                  let (up, q) = climbs-cases (remove_from eq c u).1 (is_kept (node r m v t s')) x in
                  let f : (w' : List K) → same_word eq u w' ≡ false → value_at eq c w' ≡ none =
                    λ w' d. (remove_from-other c u w' d).1 up in
                  rw (e, remove_from, x)
                    (
                      erase_sub-other n c (remove_from eq c u).0 k u w e f h,
                      λ g. is_kept-other n c (remove_from eq c u).0 k u w e f h q,
                    )
              | inr x ↦
                  rw (e, remove_from, x)
                    (
                      put_sub-other n c (remove_from eq c u).0 k u w e
                          (λ w' d. (remove_from-other c u w' d).0) h,
                      λ g. absurd (cc),
                    )
            ]
      ]

  remove_stack-other :
      (n : Node K V) (u w : List K)
      → same_word eq u w ≡ false
      → value_at eq (remove_stack eq n u) w ≡ value_at eq n w
  unfolding remove_stack
  remove_stack-other n [] w h = refl
  remove_stack-other n (k ∷ u) w h = elim (Option-cases (matching_sub_node eq k n)) [
    | inl e ↦ rw (e, remove_stack) refl
    | inr (c, e) ↦
        let c' = (remove_from eq c u).0 in
        let other : (w' : List K)
            → same_word eq u w' ≡ false
            → (value_at eq c' w' ≡ value_at eq c w')
              × ((remove_from eq c u).1 ≡ true → value_at eq c w' ≡ none) =
          remove_from-other c u in
        elim (Bool-cases ((remove_from eq c u).1 && not (is_kept c'))) [
          | inl x ↦
              rw (e, remove_stack, x)
                (erase_sub-other n c c' k u w e
                  (λ w' d. (other w' d).1 (climbs-cases (remove_from eq c u).1 (is_kept c') x).0) h)
          | inr x ↦
              rw (e, remove_stack, x) (put_sub-other n c c' k u w e (λ w' d. (other w' d).0) h)
        ]
  ]

  -- Removing changes no word of the tree but the beginning of the keys that is_match finds.
  pub remove_filter_tree-other :
      (root : Node K V) (ks w : List K)
      → same_word eq (take (length (match_stack eq root ks)) ks) w ≡ false
      → value_at eq (remove_filter_tree eq root ks) w ≡ value_at eq root w
  unfolding remove_filter_tree
  remove_filter_tree-other root ks w h =
      remove_stack-other root (take (length (match_stack eq root ks)) ks) w h

  -- A filter of one key that no other one goes through is not removed: no word changes.
  pub remove_filter_tree_one_key :
      (root c : Node K V) (k : K) (ks w : List K)
      → is_root_node root ≡ true
      → matching_sub_node eq k root ≡ some c
      → is_terminated c ≡ true
      → contains_sub_filter_tree c ≡ false
      → value_at eq (remove_filter_tree eq root (k ∷ ks)) w ≡ value_at eq root w
  unfolding remove_filter_tree match_stack
  remove_filter_tree_one_key root c k ks w r e t l =
      rw (r, match_from, e, t)
        (rw (remove_stack, e, remove_from, remove_last, l, is_kept_terminated c t)
          (put_sub_same eq sound same root c k w e))
