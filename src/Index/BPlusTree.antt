-- ===== src/Index/BPlusTree.antt =====
-- `BPlusTreeIndex` of src/bplus_tree_index.cpp. Each child and each `next` is reached by one pointer
-- alone, so the nodes are values that hold one another. `none` stands for an index outside a vector.
pub mod Search
pub mod Refine
pub mod Run
pub mod File
pub mod Iterator
use Prim.Native.Nat.{Ordering}
use mathlib.Core.Logic.{dite}
use mathlib.Core.WellFounded.{Acc}
use mathlib.Core.Option
use native.Mathlib.Decide.{dec_le}
use raft_bitcask.Prelude.{
  ℕ, zero, suc, ◌+◌, ◌-◌, ◌/◌, ◌<◌, ◌≤◌, Bool, ◌&&◌, true, false, Option, none, some, List, [], ◌∷◌,
  ◌++◌, length, get_elem?, get_or, take, drop, leb, ltb, ◌%◌, ◌^◌, ◌==◌, if◌then◌else◌, arith,
}
use raft_bitcask.Prelude.Order.{lt_wf}
use raft_bitcask.Common.{Bytes}
use raft_bitcask.Codec.Record.{LogRecordPos}
use raft_bitcask.Index.CompareKeys.{is_less, is_equal}

-- `enum class BPlusNodeType`; the cast of a byte makes any value.
abbrev pub internal : ℕ
internal = 0

abbrev pub leaf : ℕ
leaf = 1

-- The fields are `type`, `keys`, `values`, `children`, `next` and `is_dirty`.
mutual
  pub data BPlusTreeNode : Type 0 where
    node : ℕ → List Bytes → List LogRecordPos → Children → Link → Bool → BPlusTreeNode

  pub data Children : Type 0 where
    no_child : Children
    child : BPlusTreeNode → Children → Children

  pub data Link : Type 0 where
    null : Link
    to : BPlusTreeNode → Link

-- `std::make_shared<BPlusTreeNode>(type)`
abbrev pub new_node : ℕ → BPlusTreeNode
new_node type = node type [] [] no_child null false

pub left_shrinks : (d : ℕ) → 1 ≤ d → d - d / 2 - 1 < d
left_shrinks d h = omega arith

pub right_shrinks : (d : ℕ) → 1 ≤ d → d / 2 < d
right_shrinks d h = omega arith

-- `while (left < right)` where `right` is `left + d`.
unfoldable pub search_loop : List Bytes → Bytes → ℕ → (d : ℕ) → Acc ◌<◌ d → ℕ
search_loop keys key left d (Acc.intro _ smaller) =
    dite (dec_le 1 d)
      (λ more.
        let on_right =
          search_loop keys key (left + d / 2 + 1) (d - d / 2 - 1)
            (smaller _ (left_shrinks d more)) in
        let on_left = search_loop keys key left (d / 2) (smaller _ (right_shrinks d more)) in
        if is_less (get_or keys (left + d / 2) []) key then on_right else on_left)
      (λ _. left)

-- `keys.size()` as an `int`. It is only compared with positions, which are at least 0, for being
-- greater, so 0 stands for every negative one.
unfoldable pub int_size : ℕ → ℕ
int_size n = if ltb (n % 2 ^ 32) (2 ^ 31) then n % 2 ^ 32 else 0

unfoldable pub find_key_position : List Bytes → Bytes → ℕ
unfolding int_size
find_key_position keys key =
    let right = int_size (length keys) in search_loop keys key 0 right (lt_wf.apply right)

-- `compare_keys(keys[pos], key) == 0`
unfoldable pub has_at : List Bytes → ℕ → Bytes → Bool
has_at keys pos key = elim (get_elem? keys pos) [ none ↦ false | some k ↦ is_equal k key ]

-- `pos < static_cast<int>(keys.size()) && compare_keys(keys[pos], key) == 0`
unfoldable pub is_at : List Bytes → ℕ → Bytes → Bool
unfolding int_size has_at
is_at keys pos key = ltb pos (int_size (length keys)) && has_at keys pos key

-- The node that `find_leaf` returns.
unfoldable mutual
  pub find_leaf : BPlusTreeNode → Bytes → Option BPlusTreeNode
  find_leaf (node type keys values children next dirty) key =
      let below = find_leaf_in children (find_key_position keys key) key in
      if type == internal then below else some (node type keys values children next dirty)

  find_leaf_in : Children → ℕ → Bytes → Option BPlusTreeNode
  find_leaf_in no_child pos key = none
  find_leaf_in (child c rest) zero key = find_leaf c key
  find_leaf_in (child c rest) (suc pos) key = find_leaf_in rest pos key

module _ {A : Type 0} where
  abbrev with_children :
      (Children → BPlusTreeNode) → Option (A × Children) → Option (A × BPlusTreeNode)
  with_children f none = none
  with_children f (some (a, n)) = some (a, f n)

  abbrev behind : BPlusTreeNode → Option (A × Children) → Option (A × Children)
  behind c none = none
  behind c (some (a, rest)) = some (a, child c rest)

  abbrev in_front : Children → Option (A × BPlusTreeNode) → Option (A × Children)
  in_front rest none = none
  in_front rest (some (a, c)) = some (a, child c rest)

  -- The tree behind a call that changes the leaf which `find_leaf` returns.
  unfoldable mutual
    pub at_leaf :
        (BPlusTreeNode → Option (A × BPlusTreeNode))
        → BPlusTreeNode
        → Bytes
        → Option (A × BPlusTreeNode)
    at_leaf change (node type keys values children next dirty) key =
        let below = at_leaf_in change children (find_key_position keys key) key in
        if type == internal
        then with_children (λ cs. node type keys values cs next dirty) below
        else change (node type keys values children next dirty)

    at_leaf_in :
        (BPlusTreeNode → Option (A × BPlusTreeNode)) → Children → ℕ → Bytes → Option (A × Children)
    at_leaf_in change no_child pos key = none
    at_leaf_in change (child c rest) zero key = in_front rest (at_leaf change c key)
    at_leaf_in change (child c rest) (suc pos) key = behind c (at_leaf_in change rest pos key)

-- `begin() + pos` as a place to insert, to erase and to assign.
module _ {ℓ} {A : Type ℓ} where
  abbrev pub insert_at : ℕ → A → List A → List A
  insert_at zero a xs = a ∷ xs
  insert_at (suc i) a [] = a ∷ []
  insert_at (suc i) a (x ∷ xs) = x ∷ insert_at i a xs

  abbrev pub erase_at : ℕ → List A → List A
  erase_at i [] = []
  erase_at zero (x ∷ xs) = xs
  erase_at (suc i) (x ∷ xs) = x ∷ erase_at i xs

  abbrev pub set_at : ℕ → A → List A → List A
  set_at i a [] = []
  set_at zero a (x ∷ xs) = a ∷ xs
  set_at (suc i) a (x ∷ xs) = x ∷ set_at i a xs

-- `insert_to_leaf`: the old position, and the leaf.
unfoldable pub insert_to_leaf :
    Bytes → LogRecordPos → BPlusTreeNode → Option (Option LogRecordPos × BPlusTreeNode)
insert_to_leaf key pos (node type keys values children next dirty) =
    let insert_pos = find_key_position keys key in
    if is_at keys insert_pos key
    then elim (get_elem? values insert_pos) [
      | none ↦ none
      | some old_pos ↦
          some (some old_pos, node type keys (set_at insert_pos pos values) children next true)
    ]
    else if leb insert_pos (length values)
    then some (
      none,
      node type (insert_at insert_pos key keys) (insert_at insert_pos pos values) children next
          true,
    )
    else none

-- `delete_from_leaf`: the old position with the flag, and the leaf.
unfoldable pub delete_from_leaf :
    Bytes → BPlusTreeNode → Option ((Option LogRecordPos × Bool) × BPlusTreeNode)
delete_from_leaf key (node type keys values children next dirty) =
    let pos = find_key_position keys key in
    if is_at keys pos key
    then elim (get_elem? values pos) [
      | none ↦ none
      | some old_pos ↦ some (
        (some old_pos, true),
        node type (erase_at pos keys) (erase_at pos values) children next true,
      )
    ]
    else some ((none, false), node type keys values children next dirty)

-- `put`, `get` and `remove` of the index with the root `root_`.
unfoldable pub put :
    BPlusTreeNode → Bytes → LogRecordPos → Option (Option LogRecordPos × BPlusTreeNode)
put root key pos = at_leaf (insert_to_leaf key pos) root key

unfoldable pub get_in : Bytes → BPlusTreeNode → Option (Option LogRecordPos)
get_in key (node type keys values children next dirty) =
    let pos = find_key_position keys key in
    if is_at keys pos key
    then elim (get_elem? values pos) [ none ↦ none | some p ↦ some (some p) ]
    else some none

unfoldable pub get : BPlusTreeNode → Bytes → Option (Option LogRecordPos)
get root key = elim (find_leaf root key) [ none ↦ none | some n ↦ get_in key n ]

unfoldable pub remove :
    BPlusTreeNode → Bytes → Option ((Option LogRecordPos × Bool) × BPlusTreeNode)
remove root key = at_leaf (delete_from_leaf key) root key

-- `find_first_leaf` of the index; `children[0]` of no children is outside the vector.
unfoldable mutual
  pub find_first_leaf : BPlusTreeNode → Option BPlusTreeNode
  find_first_leaf (node type keys values children next dirty) =
      let below = find_first_leaf_in children in
      if type == internal then below else some (node type keys values children next dirty)

  pub find_first_leaf_in : Children → Option BPlusTreeNode
  find_first_leaf_in no_child = none
  find_first_leaf_in (child c rest) = find_first_leaf c

-- The loop over the leaves from one on.
unfoldable mutual
  pub keys_from : BPlusTreeNode → List Bytes
  keys_from (node type keys values children next dirty) = keys ++ keys_behind next

  pub keys_behind : Link → List Bytes
  keys_behind null = []
  keys_behind (to n) = keys_from n

unfoldable pub list_keys : BPlusTreeNode → Option (List Bytes)
unfolding keys_from
list_keys root = Option.map keys_from (find_first_leaf root)

unfoldable mutual
  pub count_from : BPlusTreeNode → ℕ
  count_from (node type keys values children next dirty) = length keys + count_behind next

  pub count_behind : Link → ℕ
  count_behind null = 0
  count_behind (to n) = count_from n

-- The first loop of `size`, which is also `BPlusTreeIterator::find_first_leaf`: where a node has no
-- children it stops.
unfoldable mutual
  pub leftmost : BPlusTreeNode → BPlusTreeNode
  leftmost (node type keys values children next dirty) =
      let below = leftmost_in (node type keys values children next dirty) children in
      if type == internal then below else node type keys values children next dirty

  pub leftmost_in : BPlusTreeNode → Children → BPlusTreeNode
  leftmost_in current no_child = current
  leftmost_in current (child c rest) = leftmost c

unfoldable pub size : BPlusTreeNode → ℕ
unfolding count_from leftmost
size root = count_from (leftmost root)

-- `split_leaf`, which no function calls: the leaf with the new one behind it.
unfoldable pub split_leaf : BPlusTreeNode → BPlusTreeNode
split_leaf (node type keys values children next dirty) =
    let mid = length keys / 2 in
    node type (take mid keys) (take mid values) children
      (to (node leaf (drop mid keys) (drop mid values) no_child next true)) true

-- `split_internal`
unfoldable pub split_internal : BPlusTreeNode → BPlusTreeNode
split_internal (node type keys values children next dirty) =
    node type keys values children next true
