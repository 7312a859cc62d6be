-- ===== src/Basic/FilterNode/Tests.antt =====
-- A tree of the filters 1 2 and 1 3 and 4, the match objects and the values being numbers.
use libpeco.Base.{
  ℕ, true, false, ◌==◌, ==→eq, ==_self, List, [], ◌∷◌, some, ◌≡◌, refl, Yields, ◌>>=◌,
}
use libpeco.Basic.FilterNode.{
  Node, node, sub, end, value_obj, is_match, match_stack, match_from, create_root_node,
  create_filter_tree, remove_filter_tree, remove_stack, remove_from, remove_last, is_kept, count,
  find_sub, put_sub, erase_sub,
}
use libpeco.Basic.FilterNode.Words.{shortest, latest, same_word, value_at, register}
use libpeco.Basic.FilterNode.Laws.{is_match-register}
use libpeco.Basic.FilterNode.Remove.{remove_filter_tree-other}
use libpeco.Basic.FilterNode.Branch.{remove_filter_tree-create_filter_tree}

abbrev filters : List (List ℕ × ℕ)
filters = (1 ∷ 2 ∷ [], 12) ∷ (1 ∷ 3 ∷ [], 13) ∷ (4 ∷ [], 40) ∷ []

abbrev leaf : ℕ → ℕ → Node ℕ ℕ
leaf k v = node false k v true end

abbrev tree : Node ℕ ℕ
tree = node true 0 0 false (
    sub 1 (node false 1 0 false (sub 2 (leaf 2 12) (sub 3 (leaf 3 13) end)))
      (sub 4 (leaf 4 40) end))

is_match-register_example : Yields (register ◌==◌ 0 filters (create_root_node 0 0)) (λ root.
    (is_match ◌==◌ root (1 ∷ 3 ∷ 5 ∷ []) >>= λ c. some (value_obj c))
    ≡ shortest (latest ◌==◌ filters) (1 ∷ 3 ∷ 5 ∷ []))
is_match-register_example = is_match-register ◌==◌ ==→eq ==_self 0 0 filters (1 ∷ 3 ∷ 5 ∷ [])

shortest_filter : shortest (latest ◌==◌ filters) (1 ∷ 3 ∷ 5 ∷ []) ≡ some 13
unfolding shortest latest same_word
shortest_filter = refl

remove_filter_tree-other_example :
    value_at ◌==◌ (remove_filter_tree ◌==◌ tree (1 ∷ 2 ∷ 7 ∷ [])) (1 ∷ 3 ∷ []) ≡ some 13
unfolding match_stack match_from find_sub same_word value_at
remove_filter_tree-other_example =
    remove_filter_tree-other ◌==◌ ==→eq ==_self tree (1 ∷ 2 ∷ 7 ∷ []) (1 ∷ 3 ∷ []) refl

-- With a sub node beside it, the filter 1 2 stays as well.
sibling_stays : value_at ◌==◌ (remove_filter_tree ◌==◌ tree (1 ∷ 2 ∷ [])) (1 ∷ 2 ∷ []) ≡ some 12
unfolding remove_filter_tree match_stack match_from remove_stack remove_from remove_last is_kept
    count find_sub put_sub erase_sub value_at
sibling_stays = refl

remove_filter_tree-create_filter_tree_example :
    Yields (create_filter_tree ◌==◌ 0 tree (5 ∷ 6 ∷ 7 ∷ []) 567) (λ root'.
      (w : List ℕ)
      → value_at ◌==◌ (remove_filter_tree ◌==◌ root' (5 ∷ 6 ∷ 7 ∷ [])) w ≡ value_at ◌==◌ tree w)
unfolding find_sub
remove_filter_tree-create_filter_tree_example =
    remove_filter_tree-create_filter_tree ◌==◌ ==→eq ==_self 0 567 tree 5 6 (7 ∷ []) refl refl
