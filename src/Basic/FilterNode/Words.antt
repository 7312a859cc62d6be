-- ===== src/Basic/FilterNode/Words.antt =====
-- What a filter tree means: the words that are registered in it, each with its value.
use libpeco.Base.{
  Bool, true, false, List, [], ◌∷◌, Option, none, some, if◌then◌else◌, ◌>>=◌, or_else,
}
use libpeco.Basic.FilterNode.{
  Node, is_terminated, value_obj, matching_sub_node, find_sub, create_filter_tree,
}

module _ {K V : Type 0} where
  -- The value of the shortest nonempty beginning of a word that is registered.
  unfoldable pub shortest : (List K → Option V) → List K → Option V
  shortest f [] = none
  shortest f (k ∷ ks) = or_else (f (k ∷ [])) (shortest (λ w. f (k ∷ w)) ks)

module _ {K : Type 0} (eq : K → K → Bool) where
  unfoldable pub same_word : List K → List K → Bool
  same_word [] [] = true
  same_word [] (k ∷ ks) = false
  same_word (j ∷ js) [] = false
  same_word (j ∷ js) (k ∷ ks) = if eq j k then same_word js ks else false

module _ {K V : Type 0} (eq : K → K → Bool) where
  -- The value that a word has in the tree, if the node at its end is terminated.
  unfoldable pub value_at : Node K V → List K → Option V
  unfolding find_sub
  value_at n [] = if is_terminated n then some (value_obj n) else none
  value_at n (k ∷ ks) = matching_sub_node eq k n >>= λ c. value_at c ks

  -- The value that was registered last for a word.
  unfoldable pub latest : List (List K × V) → List K → Option V
  unfolding same_word
  latest [] w = none
  latest ((u, v) ∷ l) w = or_else (latest l w) (if same_word eq u w then some v else none)

  -- The filters are registered one after the other.
  unfoldable pub register : V → List (List K × V) → Node K V → Option (Node K V)
  unfolding create_filter_tree
  register v0 [] n = some n
  register v0 ((u, v) ∷ l) n = create_filter_tree eq v0 n u v >>= λ n'. register v0 l n'
