-- ===== src/Index/BTree.antt =====
-- `BTreeIndex` and `BTreeIterator` of src/index.cpp. `std::map` is a list in ascending order of keys.
pub mod Laws
pub mod Sorted
pub mod Iterator
use Prim.Native.Nat.{Ordering}
use raft_bitcask.Prelude.{
  ℕ, ◌+◌, Bool, true, false, Option, none, some, List, [], ◌∷◌, length, if◌then◌else◌,
}
use raft_bitcask.Common.{Bytes}
use raft_bitcask.Codec.Record.{LogRecordPos}
use raft_bitcask.Index.KeyOrder.{key_compare, key_eq}

pub record BTreeIndex : Type 0 where
  pub tree : List (Bytes × LogRecordPos)

-- `tree_.find(key)`
unfoldable pub find : Bytes → List (Bytes × LogRecordPos) → Option LogRecordPos
find key [] = none
find key ((k, pos) ∷ rest) = if key_eq k key then some pos else find key rest

-- `tree_[key] = pos`, at the place of the key in the order.
unfoldable pub assign :
    Bytes → LogRecordPos → List (Bytes × LogRecordPos) → List (Bytes × LogRecordPos)
assign key pos [] = (key, pos) ∷ []
assign key pos ((k, old) ∷ rest) = elim (key_compare key k) [
  | Ordering.lt ↦ (key, pos) ∷ (k, old) ∷ rest
  | Ordering.eq ↦ (k, pos) ∷ rest
  | Ordering.gt ↦ (k, old) ∷ assign key pos rest
]

-- `tree_.erase(it)` for the entry of the key.
unfoldable pub erase : Bytes → List (Bytes × LogRecordPos) → List (Bytes × LogRecordPos)
erase key [] = []
erase key ((k, pos) ∷ rest) =
    let others = erase key rest in if key_eq k key then others else (k, pos) ∷ others

abbrev pub new_index : BTreeIndex
new_index = record { tree = [] }

-- `BTreeIndex::put`: the old position, and the index.
unfoldable pub put : BTreeIndex → Bytes → LogRecordPos → Option LogRecordPos × BTreeIndex
put index key pos = (find key index.tree, record { tree = assign key pos index.tree })

unfoldable pub get : BTreeIndex → Bytes → Option LogRecordPos
get index key = find key index.tree

unfoldable pub remove : BTreeIndex → Bytes → (Option LogRecordPos × Bool) × BTreeIndex
remove index key = elim (find key index.tree) [
  | none ↦ ((none, false), index)
  | some old ↦ ((some old, true), record { tree = erase key index.tree })
]

unfoldable pub size : BTreeIndex → ℕ
size index = length index.tree

unfoldable pub keys_of : List (Bytes × LogRecordPos) → List Bytes
keys_of [] = []
keys_of ((k, pos) ∷ rest) = k ∷ keys_of rest

unfoldable pub list_keys : BTreeIndex → List Bytes
unfolding keys_of
list_keys index = keys_of index.tree

-- `BTreeIndex::close`
pub close : BTreeIndex → BTreeIndex
close index = record { tree = [] }
