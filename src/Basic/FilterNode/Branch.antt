-- ===== src/Basic/FilterNode/Branch.antt =====
-- A filter whose first key is new, created and removed again.
use libpeco.Base.{
  suc, Bool, true, false, List, [], ◌∷◌, none, some, ◌≡◌, refl, ap, ◌∙◌, arith, length, take_all,
  Yields,
}
use libpeco.Basic.FilterNode.{
  Node, node, end, sub, is_root_node, is_terminated, sub_filter_tree, create_node, with_subs, count,
  find_sub, put_sub, erase_sub, matching_sub_node, match_from, match_stack, add_sub_node, grow,
  create_filter_tree, remove_last, is_kept, remove_from, remove_stack, remove_filter_tree,
}
use libpeco.Basic.FilterNode.Words.{value_at}
use libpeco.Basic.FilterNode.Laws.{find_sub-put_sub}
use libpeco.Basic.FilterNode.Entries.{erase_sub-put_sub-put_sub}

module _ {K V : Type 0} (eq : K → K → Bool) (sound : (x y : K) → eq x y ≡ true → x ≡ y)
    (same : (x : K) → eq x x ≡ true) where
  match_from_step :
      (n c d : Node K V) (ds : List (Node K V)) (k : K) (ks : List K)
      → matching_sub_node eq k n ≡ some c
      → is_terminated c ≡ false
      → match_from eq c ks ≡ d ∷ ds
      → match_from eq n (k ∷ ks) ≡ c ∷ (d ∷ ds)
  unfolding match_from
  match_from_step n c d ds k ks e t h = rw (match_from, e, t, h) refl

  -- A node with one sub node, which the loop has come past, loses it.
  remove_from_single :
      (r : Bool) (m : K) (v : V) (c c' : Node K V) (k : K) (u : List K)
      → remove_from eq c u ≡ (c', true)
      → remove_from eq (node r m v false (sub k c end)) (k ∷ u) ≡ (node r m v false end, true)
  unfolding remove_from find_sub put_sub erase_sub is_kept count
  remove_from_single r m v c c' k u h = rw (same k, remove_from) (rw (h, same k) (rw (same k) refl))

  -- The branch that is grown below a new node, behind the first of its keys.
  matching_sub_node-grow :
      (m : K) (v0 v : V) (k : K) (u : List K)
      → matching_sub_node eq k (grow eq v0 v (create_node m v0) (k ∷ u))
        ≡ some (grow eq v0 v (create_node k v0) u)
  unfolding grow find_sub
  matching_sub_node-grow m v0 v k u = rw (same k) refl

  match_from-grow :
      (m : K) (v0 v : V) (k : K) (u : List K)
      → (d : Node K V) × ((ds : List (Node K V)) × (match_from eq
              (grow eq v0 v (create_node m v0) (k ∷ u))
              (k ∷ u)
            ≡ d ∷ ds)
          × (length ds ≡ length u))
  unfolding match_from grow
  match_from-grow m v0 v k [] = (
    grow eq v0 v (create_node k v0) [],
    ([], rw (matching_sub_node-grow m v0 v k [], match_from, grow) refl, refl),
  )
  match_from-grow m v0 v k (j ∷ u) =
      let (d, (ds, e, l)) = match_from-grow k v0 v j u in
      (
        grow eq v0 v (create_node k v0) (j ∷ u),
        (
          d ∷ ds,
          match_from_step (grow eq v0 v (create_node m v0) (k ∷ j ∷ u))
              (grow eq v0 v (create_node k v0) (j ∷ u)) d ds k (j ∷ u)
              (matching_sub_node-grow m v0 v k (j ∷ u)) (unfold grow in refl) e,
          ap suc l,
        ),
      )

  -- The loop takes the branch away but for its first node.
  remove_from-grow :
      (m : K) (v0 v : V) (k : K) (u : List K)
      → remove_from eq (grow eq v0 v (create_node m v0) (k ∷ u)) (k ∷ u) ≡ (create_node m v0, true)
  unfolding grow
  remove_from-grow m v0 v k [] =
      let c = node false k v true end in
      remove_from_single false m v0 c c k [] (unfold remove_from remove_last in refl)
  remove_from-grow m v0 v k (j ∷ u) =
      remove_from_single false m v0 (grow eq v0 v (create_node k v0) (j ∷ u)) (create_node k v0) k
        (j ∷ u) (remove_from-grow k v0 v j u)

  -- What is left of a branch of its own after all of its keys are removed.
  remove_stack-put_sub :
      (v0 v : V) (n : Node K V) (k j : K) (u w : List K)
      → matching_sub_node eq k n ≡ none
      → value_at eq
          (remove_stack eq
            (with_subs
              (put_sub eq k (grow eq v0 v (create_node k v0) (j ∷ u)) (sub_filter_tree n))
              n)
            (k ∷ j ∷ u))
          w
        ≡ value_at eq n w
  unfolding remove_stack
  remove_stack-put_sub v0 v (node r m x t s) k j u w e =
      let c = grow eq v0 v (create_node k v0) (j ∷ u) in
      let f : find_sub eq k (put_sub eq k c s) ≡ some c =
        find_sub-put_sub eq sound same k k c s ∙ rw (same k) refl in
      rw (f, remove_stack, remove_from-grow k v0 v j u)
        (unfold is_kept count in
          erase_sub-put_sub-put_sub eq sound same (node r m x t s) c (create_node k v0) k w e)

  match_stack-put_sub :
      (v0 v : V) (n : Node K V) (k j : K) (u : List K)
      → is_root_node n ≡ true
      → length (
          match_stack eq
            (with_subs
              (put_sub eq k (grow eq v0 v (create_node k v0) (j ∷ u)) (sub_filter_tree n))
              n)
            (k ∷ j ∷ u))
        ≡ suc (suc (length u))
  unfolding match_stack
  match_stack-put_sub v0 v (node r m x t s) k j u h =
      let c = grow eq v0 v (create_node k v0) (j ∷ u) in
      let f : find_sub eq k (put_sub eq k c s) ≡ some c =
        find_sub-put_sub eq sound same k k c s ∙ rw (same k) refl in
      let (d, (ds, e, l)) = match_from-grow k v0 v j u in
      rw
        (
          h,
          match_from_step (node r m x t (put_sub eq k c s)) c d ds k (j ∷ u) f (unfold grow in refl)
              e,
          l,
        )
        refl

  remove_filter_tree-grow :
      (v0 v : V) (n : Node K V) (k j : K) (u w : List K)
      → is_root_node n ≡ true
      → matching_sub_node eq k n ≡ none
      → value_at eq (remove_filter_tree eq (grow eq v0 v n (k ∷ j ∷ u)) (k ∷ j ∷ u)) w
        ≡ value_at eq n w
  unfolding remove_filter_tree
  remove_filter_tree-grow v0 v (node r m x t s) k j u w h e =
      let n = node r m x t s in
      let c = grow eq v0 v (create_node k v0) (j ∷ u) in
      let g : grow eq v0 v n (k ∷ j ∷ u) ≡ node r m x t (put_sub eq k c s) =
        unfold grow in rw (e, add_sub_node) refl in
      rw (g, match_stack-put_sub v0 v n k j u h, take_all (length u) u (omega arith))
        (remove_stack-put_sub v0 v n k j u w e)

  -- A filter of two keys or more whose first key is in no other filter is taken out again: the
  -- tree has the same words as before it was created.
  pub remove_filter_tree-create_filter_tree :
      (v0 v : V) (root : Node K V) (k j : K) (u : List K)
      → is_root_node root ≡ true
      → matching_sub_node eq k root ≡ none
      → Yields (create_filter_tree eq v0 root (k ∷ j ∷ u) v) (λ root'.
        (w : List K) → value_at eq (remove_filter_tree eq root' (k ∷ j ∷ u)) w ≡ value_at eq root w)
  unfolding create_filter_tree
  remove_filter_tree-create_filter_tree v0 v root k j u r e =
      (grow eq v0 v root (k ∷ j ∷ u), rw r refl, λ w. remove_filter_tree-grow v0 v root k j u w r e)
