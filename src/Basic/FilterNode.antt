-- ===== src/Basic/FilterNode.antt =====
-- The class template filternode of src/basic/filternode.h: a tree of nodes, each under its match
-- object. The map of the sub nodes is a list of them by match object, whose order no operation
-- reads. A shared node is the node itself, and an operation on a node inside the tree gives the tree
-- with that node changed.
pub mod Words
pub mod Laws
pub mod Entries
pub mod Remove
pub mod Branch
mod Tests
use libpeco.Base.{
  ℕ, suc, Bool, true, false, not, ◌&&◌, ◌||◌, List, [], ◌∷◌, ◌++◌, Option, none, some, Bytes, codes,
  length, take, ltb, if◌then◌else◌,
}

mutual
  pub data Node (K V : Type 0) : Type 0 where
    node :
        (is_root : Bool) (match_obj : K) (value_obj : V) (tflag : Bool) (subs : SubNodes K V)
        → Node K V

  pub data SubNodes (K V : Type 0) : Type 0 where
    end : SubNodes K V
    sub : K → Node K V → SubNodes K V → SubNodes K V

module _ {K V : Type 0} where
  -- A node of a match object, and the root, whose match object is the default one.
  abbrev pub create_node : K → V → Node K V
  create_node m v = node false m v false end

  abbrev pub create_root_node : K → V → Node K V
  create_root_node m0 v0 = node true m0 v0 false end

  abbrev pub is_root_node : Node K V → Bool
  is_root_node (node r m v t s) = r

  abbrev pub match_obj : Node K V → K
  match_obj (node r m v t s) = m

  abbrev pub value_obj : Node K V → V
  value_obj (node r m v t s) = v

  abbrev pub is_terminated : Node K V → Bool
  is_terminated (node r m v t s) = t

  abbrev pub sub_filter_tree : Node K V → SubNodes K V
  sub_filter_tree (node r m v t s) = s

  abbrev pub set_value_obj : V → Node K V → Node K V
  set_value_obj w (node r m v t s) = node r m w t s

  abbrev pub set_terminate_flag : Node K V → Node K V
  set_terminate_flag (node r m v t s) = node r m v true s

  abbrev pub clear_terminate_flag : Node K V → Node K V
  clear_terminate_flag (node r m v t s) = node r m v false s

  -- The node with other sub nodes.
  abbrev pub with_subs : SubNodes K V → Node K V → Node K V
  with_subs s' (node r m v t s) = node r m v t s'

  unfoldable pub count : SubNodes K V → ℕ
  count end = 0
  count (sub k n s) = suc (count s)

  abbrev pub contains_sub_filter_tree : Node K V → Bool
  contains_sub_filter_tree n = ltb 0 (count (sub_filter_tree n))

  unfoldable pub last_node : List (Node K V) → Option (Node K V)
  last_node [] = none
  last_node (n ∷ []) = some n
  last_node (n ∷ m ∷ ns) = last_node (m ∷ ns)

  -- What remove_filter_tree does to the last node of the stack, and whether its loop starts.
  unfoldable pub remove_last : Node K V → Node K V × Bool
  unfolding count
  remove_last n = if contains_sub_filter_tree n then (clear_terminate_flag n, false) else (n, true)

  -- The test that ends the loop at a node.
  unfoldable pub is_kept : Node K V → Bool
  unfolding count
  is_kept n = ltb 1 (count (sub_filter_tree n)) || is_terminated n

  -- The comparisons with a match object; those with a node compare with its match object, `same`
  -- telling whether it is the node itself.
  unfoldable pub equals : (K → K → Bool) → Node K V → K → Bool
  equals eq n mt = if is_root_node n then false else eq (match_obj n) mt

  unfoldable pub differs : (K → K → Bool) → Node K V → K → Bool
  differs eq n mt = if is_root_node n then false else not (eq (match_obj n) mt)

  unfoldable pub is_less : (K → K → Bool) → Node K V → K → Bool
  is_less lt n mt = if is_root_node n then false else lt (match_obj n) mt

  unfoldable pub equals_node : (K → K → Bool) → Bool → Node K V → Node K V → Bool
  unfolding equals
  equals_node eq same n ref = if same then true else equals eq n (match_obj ref)

  unfoldable pub differs_node : (K → K → Bool) → Bool → Node K V → Node K V → Bool
  unfolding equals_node
  differs_node eq same n ref = if is_root_node n then false else not (equals_node eq same n ref)

  unfoldable pub to_string : (K → Bytes) → (ℕ → Bytes) → Node K V → Bytes
  unfolding count
  to_string key_string size_string (node r m v t s) =
      (if r then codes "(R:<" else codes "(N:<")
      ++ (key_string m
          ++ (codes ">:"
              ++ ((if t then codes "T:" else codes "-:") ++ (size_string (count s) ++ codes ")"))))

module _ {K V : Type 0} (eq : K → K → Bool) where
  unfoldable pub find_sub : K → SubNodes K V → Option (Node K V)
  find_sub k end = none
  find_sub k (sub j n s) = if eq j k then some n else find_sub k s

  -- The entry of a match object with another node, a new one if there is none.
  unfoldable pub put_sub : K → Node K V → SubNodes K V → SubNodes K V
  put_sub k c end = sub k c end
  put_sub k c (sub j n s) = if eq j k then sub j c s else sub j n (put_sub k c s)

  unfoldable pub erase_sub : K → SubNodes K V → SubNodes K V
  erase_sub k end = end
  erase_sub k (sub j n s) = if eq j k then erase_sub k s else sub j n (erase_sub k s)

  abbrev pub matching_sub_node : K → Node K V → Option (Node K V)
  unfolding find_sub
  matching_sub_node k n = find_sub k (sub_filter_tree n)

  -- The sub node that add_sub_node returns: the old one or a new one with the default value.
  unfoldable pub add_sub_node : V → K → Node K V → Node K V
  unfolding matching_sub_node
  add_sub_node v0 k n = elim (matching_sub_node k n) [ none ↦ create_node k v0 | some c ↦ c ]

  -- The loop of is_match_ from the node reached: the nodes from there to the first terminated one.
  unfoldable pub match_from : Node K V → List K → List (Node K V)
  unfolding matching_sub_node
  match_from n [] = []
  match_from n (k ∷ ks) = elim (matching_sub_node k n) [
    | none ↦ []
    | some c ↦
        if is_terminated c
        then c ∷ []
        else elim (match_from c ks) [ [] ↦ [] | d ∷ ds ↦ c ∷ (d ∷ ds) ]
  ]

  unfoldable pub match_stack : Node K V → List K → List (Node K V)
  unfolding match_from
  match_stack root ks = if is_root_node root then match_from root ks else []

  unfoldable pub is_match : Node K V → List K → Option (Node K V)
  unfolding match_stack last_node
  is_match root ks = last_node (match_stack root ks)

  -- The loop of create_filter_tree from the node reached.
  unfoldable pub grow : V → V → Node K V → List K → Node K V
  unfolding add_sub_node put_sub
  grow v0 v n [] = set_value_obj v (set_terminate_flag n)
  grow v0 v n (k ∷ ks) =
      with_subs (put_sub k (grow v0 v (add_sub_node v0 k n) ks) (sub_filter_tree n)) n

  unfoldable pub create_filter_tree : V → Node K V → List K → V → Option (Node K V)
  unfolding grow
  create_filter_tree v0 root ks v = if is_root_node root then some (grow v0 v root ks) else none

  -- The loop over the stack from its end: the node of this place, with the nodes behind it as far as
  -- the keys go, and whether the loop has come past it.
  unfoldable pub remove_from : Node K V → List K → Node K V × Bool
  unfolding remove_last is_kept matching_sub_node put_sub erase_sub
  remove_from n [] = remove_last n
  remove_from n (k ∷ ks) = elim (matching_sub_node k n) [
    | none ↦ (n, false)
    | some c ↦
        let (c', climbs) = remove_from c ks in
        let s' = put_sub k c' (sub_filter_tree n) in
        if climbs && not (is_kept (with_subs s' n))
        then (with_subs (erase_sub k s') n, true)
        else (with_subs s' n, false)
  ]

  -- The whole stack below the root, and the test of its first node.
  unfoldable pub remove_stack : Node K V → List K → Node K V
  unfolding remove_from is_kept matching_sub_node put_sub erase_sub
  remove_stack root [] = root
  remove_stack root (k ∷ ks) = elim (matching_sub_node k root) [
    | none ↦ root
    | some c ↦
        let (c', climbs) = remove_from c ks in
        let s' = put_sub k c' (sub_filter_tree root) in
        if climbs && not (is_kept c') then with_subs (erase_sub k s') root else with_subs s' root
  ]

  -- The stack has a node for each of the first keys.
  unfoldable pub remove_filter_tree : Node K V → List K → Node K V
  unfolding match_stack remove_stack
  remove_filter_tree root ks = remove_stack root (take (length (match_stack root ks)) ks)
