-- ===== src/Basic/FilterNode/Laws.antt =====
-- What create_filter_tree and is_match do to the words of the tree.
use libpeco.Base.{
  Bool, true, false, List, [], ◌∷◌, Option, none, some, ◌≡◌, refl, sym, ap, ◌∙◌, arith,
  if◌then◌else◌, ◌>>=◌, Bool-cases, Option-cases, inl, inr, Yields, or_else,
}
use libpeco.Basic.FilterNode.{
  Node, SubNodes, node, end, sub, is_root_node, is_terminated, value_obj, create_node,
  create_root_node, find_sub, put_sub, matching_sub_node, add_sub_node, match_from, match_stack,
  last_node, is_match, grow, create_filter_tree,
}
use libpeco.Basic.FilterNode.Words.{shortest, same_word, value_at, latest, register}

module _ {K V : Type 0} where
  shortest-none :
      (f : List K → Option V) → ((w : List K) → f w ≡ none) → (ks : List K) → shortest f ks ≡ none
  unfolding shortest
  shortest-none f h [] = refl
  shortest-none f h (k ∷ ks) =
      rw (h (k ∷ []), shortest) (shortest-none (λ w. f (k ∷ w)) (λ w. h (k ∷ w)) ks)

  shortest_agree :
      (f g : List K → Option V)
      → ((w : List K) → f w ≡ g w)
      → (ks : List K) → shortest f ks ≡ shortest g ks
  unfolding shortest
  shortest_agree f g h [] = refl
  shortest_agree f g h (k ∷ ks) = elim (Option-cases (g (k ∷ []))) [
    | inl e ↦
        rw (h (k ∷ []), shortest, e)
          (shortest_agree (λ w. f (k ∷ w)) (λ w. g (k ∷ w)) (λ w. h (k ∷ w)) ks)
    | inr (v, e) ↦ rw (h (k ∷ []), shortest, e) refl
  ]

none_or : {V : Type 0} (o a : Option V) → a ≡ none → or_else o a ≡ o
none_or none a h = h
none_or (some x) a h = refl

value_or_else :
    {V : Type 0} (v : V) (a o : Option V) (b : Bool)
    → or_else o (if b then some v else a) ≡ or_else (or_else o (if b then some v else none)) a
value_or_else v a none true = refl
value_or_else v a none false = refl
value_or_else v a (some x) b = refl

module _ {K V : Type 0} (eq : K → K → Bool) where
  last_behind :
      (c : Node K V) (l : List (Node K V))
      → last_node (elim l [ [] ↦ [] | d ∷ ds ↦ c ∷ (d ∷ ds) ]) ≡ last_node l
  unfolding last_node
  last_behind c [] = refl
  last_behind c (d ∷ ds) = refl

  -- Walking the tree stops at the shortest beginning that is registered.
  last-match_from :
      (n : Node K V) (ks : List K)
      → (last_node (match_from eq n ks) >>= λ c. some (value_obj c)) ≡ shortest (value_at eq n) ks
  unfolding match_from last_node shortest value_at
  last-match_from n [] = refl
  last-match_from n (k ∷ ks) = elim (Option-cases (matching_sub_node eq k n)) [
    | inl e ↦
        rw (e, match_from, shortest, value_at) (sym (shortest-none (λ w. none) (λ w. refl) ks))
    | inr (c, e) ↦ elim (Bool-cases (is_terminated c)) [
      | inl t ↦ rw (e, t, match_from, shortest, value_at) refl
      | inr t ↦
          rw (e, t, match_from, shortest, value_at, last_behind c (match_from eq c ks))
            (last-match_from c ks)
    ]
  ]

  value_at_new : (k : K) (v0 : V) (w : List K) → value_at eq (create_node k v0) w ≡ none
  unfolding value_at find_sub
  value_at_new k v0 [] = refl
  value_at_new k v0 (j ∷ w) = refl

  value_at_root : (m0 : K) (v0 : V) (w : List K) → value_at eq (create_root_node m0 v0) w ≡ none
  unfolding value_at find_sub
  value_at_root m0 v0 [] = refl
  value_at_root m0 v0 (j ∷ w) = refl

  -- The sub node that a word goes through, old or new, holds what the tree holds behind its key.
  value_at-add_sub_node :
      (v0 : V) (k : K) (n : Node K V) (w : List K)
      → value_at eq (add_sub_node eq v0 k n) w ≡ value_at eq n (k ∷ w)
  unfolding value_at add_sub_node
  value_at-add_sub_node v0 k n w = elim (Option-cases (matching_sub_node eq k n)) [
    | inl e ↦ rw (e, value_at, add_sub_node) (value_at_new k v0 w)
    | inr (c, e) ↦ rw (e, value_at, add_sub_node) refl
  ]

  module _ (sound : (x y : K) → eq x y ≡ true → x ≡ y) (same : (x : K) → eq x x ≡ true) where
    pub find_sub-put_sub :
        (j k : K) (c : Node K V) (s : SubNodes K V)
        → find_sub eq j (put_sub eq k c s) ≡ (if eq k j then some c else find_sub eq j s)
    unfolding find_sub put_sub
    find_sub-put_sub j k c end = refl
    find_sub-put_sub j k c (sub i n s) =
        ground (arith, sound i k, sound i j, sound k j, same k, find_sub-put_sub j k c s)

    -- The word that is grown gets the value, and every other one keeps its own.
    pub value_at-grow :
        (v0 v : V) (n : Node K V) (u w : List K)
        → value_at eq (grow eq v0 v n u) w ≡ (if same_word eq u w then some v else value_at eq n w)
    unfolding grow value_at same_word
    value_at-grow v0 v (node r m x t s) [] [] = refl
    value_at-grow v0 v (node r m x t s) [] (j ∷ w) = refl
    value_at-grow v0 v (node r m x t s) (k ∷ u) [] = refl
    value_at-grow v0 v (node r m x t s) (k ∷ u) (j ∷ w) =
        let n = node r m x t s in
        let c = add_sub_node eq v0 k n in
        elim (Bool-cases (eq k j)) [
          | inl e ↦
              rw (find_sub-put_sub j k (grow eq v0 v c u) s, e)
                (value_at-grow v0 v c u w
                  ∙ ap (λ o. if same_word eq u w then some v else o)
                      (value_at-add_sub_node v0 k n w
                        ∙ ap (λ i. value_at eq n (i ∷ w)) (sound k j e)))
          | inr e ↦ rw (find_sub-put_sub j k (grow eq v0 v c u) s, e) refl
        ]

    is_root_node-grow :
        (v0 v : V) (n : Node K V) (u : List K) → is_root_node (grow eq v0 v n u) ≡ is_root_node n
    unfolding grow
    is_root_node-grow v0 v (node r m x t s) [] = refl
    is_root_node-grow v0 v (node r m x t s) (k ∷ u) = refl

    value_at-register :
        (v0 : V) (l : List (List K × V)) (n : Node K V)
        → is_root_node n ≡ true
        → Yields (register eq v0 l n) (λ n'.
          (is_root_node n' ≡ true)
          × ((w : List K) → value_at eq n' w ≡ or_else (latest eq l w) (value_at eq n w)))
    unfolding register latest create_filter_tree
    value_at-register v0 [] n h = (n, refl, (h, λ w. refl))
    value_at-register v0 ((u, v) ∷ l) n h =
        let (n', e, (r, f)) =
          value_at-register v0 l (grow eq v0 v n u) (is_root_node-grow v0 v n u ∙ h) in
        (
          n',
          rw h e,
          (
            r,
            λ w.
                f w
                ∙ ap (or_else (latest eq l w)) (value_at-grow v0 v n u w)
                ∙ value_or_else v (value_at eq n w) (latest eq l w) (same_word eq u w),
          ),
        )

    -- In a tree made from a root by registering filters, is_match finds the node of the shortest
    -- nonempty beginning that is a filter, with the value that was registered last for it, and
    -- nothing if no beginning is one; no registration fails.
    pub is_match-register :
        (m0 : K) (v0 : V) (l : List (List K × V)) (ks : List K)
        → Yields
            (register eq v0 l (create_root_node m0 v0))
            (λ root. (is_match eq root ks >>= λ c. some (value_obj c)) ≡ shortest (latest eq l) ks)
    unfolding is_match match_stack
    is_match-register m0 v0 l ks =
        let (root, e, (r, f)) = value_at-register v0 l (create_root_node m0 v0) refl in
        (
          root,
          e,
          rw r (
              last-match_from root ks
              ∙ shortest_agree (value_at eq root) (latest eq l)
                  (λ w.
                    f w
                    ∙ none_or (latest eq l w) (value_at eq (create_root_node m0 v0) w)
                        (value_at_root m0 v0 w))
                  ks),
        )
