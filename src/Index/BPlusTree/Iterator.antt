-- ===== src/Index/BPlusTree/Iterator.antt =====
-- `BPlusTreeIterator` of src/bplus_tree_index.cpp: forward a cursor in the leaves, in reverse a
-- snapshot of the items.
pub mod Seek
pub mod Reverse
use mathlib.Core.Option
use raft_bitcask.Prelude.{
  ℕ, zero, suc, ◌+◌, Bool, true, false, not, ◌&&◌, Option, none, some, List, [], ◌∷◌, ◌++◌, length,
  get_or, reverse, ltb, leb, ◌==◌, if◌then◌else◌,
}
use raft_bitcask.Common.{Bytes}
use raft_bitcask.Codec.Record.{LogRecordPos}
use raft_bitcask.Index.CompareKeys.{is_less}
use raft_bitcask.Index.BPlusTree.{BPlusTreeNode, node, Link, null, to, leftmost, count_behind}

pub record BPlusTreeIterator : Type 0 where
  pub root : BPlusTreeNode
  pub current_leaf : Link
  pub current_index : ℕ
  pub prefix : Bytes
  pub reverse_order : Bool
  pub items : List (Bytes × LogRecordPos)
  pub items_index : ℕ
  pub use_items : Bool

-- `LogRecordPos{}`
abbrev pub no_pos : LogRecordPos
no_pos = record { fid = 0; offset = 0; size = 0 }

abbrev pub node_keys : BPlusTreeNode → List Bytes
node_keys (node type keys values children next dirty) = keys

abbrev pub node_values : BPlusTreeNode → List LogRecordPos
node_values (node type keys values children next dirty) = values

abbrev pub node_next : BPlusTreeNode → Link
node_next (node type keys values children next dirty) = next

abbrev pub leaf_keys : Link → List Bytes
leaf_keys null = []
leaf_keys (to n) = node_keys n

unfoldable pub key_matches_prefix : Bytes → Bytes → Bool
key_matches_prefix [] key = true
key_matches_prefix (x ∷ xs) [] = false
key_matches_prefix (x ∷ xs) (y ∷ ys) = (x == y) && key_matches_prefix xs ys

-- `valid`; under no leaf there is no key.
unfoldable pub valid : BPlusTreeIterator → Bool
valid it =
    if it.use_items
    then ltb it.items_index (length it.items)
    else ltb it.current_index (length (leaf_keys it.current_leaf))

abbrev pub leaf_value : Link → ℕ → LogRecordPos
leaf_value null i = no_pos
leaf_value (to n) i = get_or (node_values n) i no_pos

unfoldable pub key : BPlusTreeIterator → Bytes
key it =
    if it.use_items
    then (get_or it.items it.items_index ([], no_pos)).0
    else get_or (leaf_keys it.current_leaf) it.current_index []

unfoldable pub value : BPlusTreeIterator → LogRecordPos
value it =
    if it.use_items
    then (get_or it.items it.items_index ([], no_pos)).1
    else leaf_value it.current_leaf it.current_index

-- `current_index_++`, and at the end of the leaf the step to the next one.
unfoldable pub advance : BPlusTreeIterator → BPlusTreeIterator
advance it = elim it.current_leaf [
  | null ↦ record it { current_index = it.current_index + 1 }
  | to n ↦
      if leb (length (node_keys n)) (it.current_index + 1)
      then record it { current_leaf = node_next n; current_index = 0 }
      else record it { current_index = it.current_index + 1 }
]

-- The loop of `next` over keys without the prefix. On fuel: a round moves past a key.
unfoldable pub skip : ℕ → BPlusTreeIterator → Option BPlusTreeIterator
skip zero it = none
skip (suc fuel) it =
    let rest = skip fuel (advance it) in
    if valid it && not (key_matches_prefix it.prefix (key it)) then rest else some it

-- The fuel of a loop that starts in a leaf: one more than the keys from there on.
abbrev pub rounds : BPlusTreeIterator → ℕ
rounds it = suc (count_behind it.current_leaf)

unfoldable pub next : BPlusTreeIterator → Option BPlusTreeIterator
next it =
    if it.use_items
    then some (record it { items_index = it.items_index + 1 })
    else skip (rounds it) (advance it)

-- The loops of `rewind` and of `seek`: `next` while the test holds for the key.
unfoldable pub next_while :
    (BPlusTreeIterator → Bool) → ℕ → BPlusTreeIterator → Option BPlusTreeIterator
next_while test zero it = none
next_while test (suc fuel) it =
    let rest : Option BPlusTreeIterator = elim (next it) [
      | none ↦ none
      | some it' ↦ next_while test fuel it'
    ] in
    if valid it && test it then rest else some it

-- The first leaf, with the cursor at its start.
abbrev pub at_start : BPlusTreeIterator → BPlusTreeIterator
at_start it = record it { current_leaf = to (leftmost it.root); current_index = 0 }

unfoldable pub rewind : BPlusTreeIterator → Option BPlusTreeIterator
rewind it =
    if it.use_items
    then some (record it { items_index = 0 })
    else next_while (λ j. not (key_matches_prefix j.prefix (key j))) (rounds (at_start it))
        (at_start it)

-- The loop over `i`: the first item whose key is not less, or the number of items.
unfoldable pub first_not_less : Bytes → List (Bytes × LogRecordPos) → ℕ
first_not_less key [] = 0
first_not_less key ((k, pos) ∷ rest) =
    let later = first_not_less key rest in if is_less k key then suc later else 0

unfoldable pub seek : BPlusTreeIterator → Bytes → Option BPlusTreeIterator
seek it target =
    if it.use_items
    then some (record it { items_index = first_not_less target it.items })
    else next_while (λ j. is_less (key j) target) (rounds (at_start it)) (at_start it)

-- The items of one leaf that have the prefix, with the values at the same indices.
unfoldable pub items_of : Bytes → List Bytes → List LogRecordPos → List (Bytes × LogRecordPos)
items_of prefix [] values = []
items_of prefix (k ∷ ks) [] = []
items_of prefix (k ∷ ks) (v ∷ vs) =
    let rest = items_of prefix ks vs in if key_matches_prefix prefix k then (k, v) ∷ rest else rest

unfoldable mutual
  pub items_from : Bytes → BPlusTreeNode → List (Bytes × LogRecordPos)
  items_from prefix (node type keys values children next dirty) =
      items_of prefix keys values ++ items_behind prefix next

  items_behind : Bytes → Link → List (Bytes × LogRecordPos)
  items_behind prefix null = []
  items_behind prefix (to n) = items_from prefix n

-- `init_items`
unfoldable pub init_items : BPlusTreeIterator → BPlusTreeIterator
init_items it =
    let found = items_from it.prefix (leftmost it.root) in
    record it { items = if it.reverse_order then reverse found else found }

-- The constructor.
unfoldable pub new_iterator : BPlusTreeNode → Bytes → Bool → Option BPlusTreeIterator
new_iterator root prefix reverse_order =
    let blank : BPlusTreeIterator = record {
      root = root;
      current_leaf = null;
      current_index = 0;
      prefix = prefix;
      reverse_order = reverse_order;
      items = [];
      items_index = 0;
      use_items = false;
    } in
    let filled = init_items blank in
    rewind (if reverse_order then record filled { use_items = true } else blank)

-- `BPlusTreeIndex::iterator`, which gives no prefix.
unfoldable pub iterator : BPlusTreeNode → Bool → Option BPlusTreeIterator
iterator root reverse_order = new_iterator root [] reverse_order

unfoldable pub close : BPlusTreeIterator → BPlusTreeIterator
close it = record it { current_leaf = null; items = [] }

-- What a caller finds under the cursor.
unfoldable pub item : BPlusTreeIterator → Option (Bytes × LogRecordPos)
unfolding valid key value
item it = if valid it then some (key it, value it) else none

-- What it finds behind `seek` of a new iterator.
unfoldable pub found_by : BPlusTreeNode → Bool → Bytes → Option (Option (Bytes × LogRecordPos))
unfolding item
found_by root reverse_order target = elim (iterator root reverse_order) [
  | none ↦ none
  | some it ↦ Option.map item (seek it target)
]
