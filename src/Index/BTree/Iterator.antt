-- ===== src/Index/BTree/Iterator.antt =====
-- `BTreeIterator` of src/index.cpp: a snapshot of the tree with a cursor.
use Prim.Native.Nat.{Ordering}
use raft_bitcask.Prelude.{
  ℕ, suc, ◌+◌, Bool, true, false, none, some, List, [], ◌∷◌, length, get_elem?, reverse, ltb,
  if◌then◌else◌,
}
use raft_bitcask.Common.{Bytes, Result, ok, throw, bitcask_exception}
use raft_bitcask.Codec.Record.{LogRecordPos}
use raft_bitcask.Index.KeyOrder.{key_compare}
use raft_bitcask.Index.BTree.{BTreeIndex}

pub record BTreeIterator : Type 0 where
  pub items : List (Bytes × LogRecordPos)
  pub current_index : ℕ
  pub reverse_order : Bool

-- The constructor.
unfoldable pub iterator : BTreeIndex → Bool → BTreeIterator
iterator index reverse_order = record {
  items = if reverse_order then reverse index.tree else index.tree;
  current_index = 0;
  reverse_order = reverse_order;
}

unfoldable pub rewind : BTreeIterator → BTreeIterator
rewind it = record it { current_index = 0 }

-- `a <= b` of byte strings
unfoldable pub key_le : Bytes → Bytes → Bool
key_le a b = elim (key_compare a b) [ Ordering.gt ↦ false | _ ↦ true ]

-- The loop over `i`: the first index whose key passes the test, or the number of items.
unfoldable pub first_index : (Bytes → Bool) → List (Bytes × LogRecordPos) → ℕ
first_index test [] = 0
first_index test ((k, pos) ∷ rest) =
    let later = first_index test rest in if test k then 0 else suc later

unfoldable pub seek : BTreeIterator → Bytes → BTreeIterator
seek it key =
    if it.reverse_order
    then record it { current_index = first_index (λ k. key_le k key) it.items }
    else record it { current_index = first_index (λ k. key_le key k) it.items }

unfoldable pub valid : BTreeIterator → Bool
valid it = ltb it.current_index (length it.items)

unfoldable pub next : BTreeIterator → BTreeIterator
next it =
    if ltb it.current_index (length it.items)
    then record it { current_index = it.current_index + 1 }
    else it

-- The item under the cursor; `key` and `value` throw where there is none.
unfoldable pub current : BTreeIterator → Result (Bytes × LogRecordPos)
current it = elim (get_elem? it.items it.current_index) [
  | none ↦ throw (bitcask_exception "Iterator is not valid")
  | some item ↦ ok item
]

pub close : BTreeIterator → BTreeIterator
close it = record it { items = []; current_index = 0 }
