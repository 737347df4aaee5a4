-- ===== src/Index/BPlusTree/Run.antt =====
-- Calls of src/bplus_tree_index.cpp one after another, beside the same calls of the ordered map of
-- src/index.cpp: `create_indexer` gives the database the one or the other.
use mathlib.Core.Option
use raft_bitcask.Prelude.{
  ℕ, ◌<◌, ◌^◌, ◌+◌, ◌≡◌, refl, ap, Bool, true, false, Option, none, some, List, [], ◌∷◌, length,
  append-nil, arith, Option-cases, inl, inr,
}
use raft_bitcask.Common.{Bytes}
use raft_bitcask.Codec.Record.{LogRecordPos}
use raft_bitcask.Index.BTree
use raft_bitcask.Index.BTree.{BTreeIndex, find, erase, keys_of}
use raft_bitcask.Index.BTree.Sorted.{Ascending, put-IsSorted, Ascending-erase}
use raft_bitcask.Index.BPlusTree
use raft_bitcask.Index.BPlusTree.{
  BPlusTreeNode, node, find_first_leaf, keys_from, count_from, leftmost, split_leaf,
}
use raft_bitcask.Index.BPlusTree.Refine.{
  leaf_of, length-keys_of, put-assign, get-find, remove-erase,
}

-- The calls of the interface `Indexer`.
pub data Call : Type 0 where
  put : Bytes → LogRecordPos → Call
  get : Bytes → Call
  remove : Bytes → Call
  list_keys size : Call

pub data Answer : Type 0 where
  position : Option LogRecordPos → Answer
  removed : Option LogRecordPos × Bool → Answer
  keys : List Bytes → Answer
  count : ℕ → Answer

unfoldable pub call_tree : Call → BTreeIndex → Answer × BTreeIndex
call_tree (put key pos) index =
    let (old, index') = BTree.put index key pos in (position old, index')
call_tree (get key) index = (position (BTree.get index key), index)
call_tree (remove key) index = let (old, index') = BTree.remove index key in (removed old, index')
call_tree list_keys index = (keys (BTree.list_keys index), index)
call_tree size index = (count (BTree.size index), index)

unfoldable pub call_bplus : Call → BPlusTreeNode → Option (Answer × BPlusTreeNode)
call_bplus (put key pos) root =
    Option.map (λ (old, r). (position old, r)) (BPlusTree.put root key pos)
call_bplus (get key) root = Option.map (λ p. (position p, root)) (BPlusTree.get root key)
call_bplus (remove key) root = Option.map (λ (old, r). (removed old, r)) (BPlusTree.remove root key)
call_bplus list_keys root = Option.map (λ ks. (keys ks, root)) (BPlusTree.list_keys root)
call_bplus size root = some (count (BPlusTree.size root), root)

unfoldable pub run_tree : List Call → BTreeIndex → List Answer
run_tree [] index = []
run_tree (c ∷ rest) index =
    let (answer, index') = call_tree c index in answer ∷ run_tree rest index'

unfoldable pub run_bplus : List Call → BPlusTreeNode → Option (List Answer)
run_bplus [] root = some []
run_bplus (c ∷ rest) root = elim (call_bplus c root) [
  | none ↦ none
  | some (answer, root') ↦ Option.map (λ answers. answer ∷ answers) (run_bplus rest root')
]

call_tree_missing :
    (key : Bytes) (m : List (Bytes × LogRecordPos))
    → find key m ≡ none
    → call_tree (remove key) (record { tree = m }) ≡ (removed (none, false), record { tree = m })
unfolding call_tree BTree.remove
call_tree_missing key m e =
    let r : BTree.remove (record { tree = m }) key ≡ ((none, false), record { tree = m }) =
      rw (BTree.remove, e) refl in
    ap (λ r. (removed r.0, r.1)) r

call_tree_found :
    (key : Bytes) (m : List (Bytes × LogRecordPos)) (old : LogRecordPos)
    → find key m ≡ some old
    → call_tree (remove key) (record { tree = m })
      ≡ (removed (some old, true), record { tree = erase key m })
unfolding call_tree BTree.remove
call_tree_found key m old e =
    let r : BTree.remove (record { tree = m }) key
        ≡ ((some old, true), record { tree = erase key m }) =
      rw (BTree.remove, e) refl in
    ap (λ r. (removed r.0, r.1)) r

remove_call :
    (key : Bytes) (m : List (Bytes × LogRecordPos)) (dirty : Bool)
    → Ascending m
    → length m < 2 ^ 31
    → (dirty' : Bool) × (call_bplus (remove key) (leaf_of m dirty)
        ≡ some (
          (call_tree (remove key) (record { tree = m })).0,
          leaf_of (call_tree (remove key) (record { tree = m })).1.tree dirty',
        ))
      × Ascending (call_tree (remove key) (record { tree = m })).1.tree
unfolding call_bplus
remove_call key m dirty h few = elim (Option-cases (find key m)) [
  | inl e ↦ (
    dirty,
    rw (call_tree_missing key m e, remove-erase m key h few dirty, e) refl,
    rw (call_tree_missing key m e) h,
  )
  | inr (old, e) ↦ (
    true,
    rw (call_tree_found key m old e, remove-erase m key h few dirty, e) refl,
    rw (call_tree_found key m old e) (Ascending-erase key m h),
  )
]

-- One call over a leaf that holds a map of fewer than 2^31 keys: the answer of the map, and a leaf
-- that holds the map behind the call.
pub call_bplus-call_tree :
    (c : Call) (m : List (Bytes × LogRecordPos)) (dirty : Bool)
    → Ascending m
    → length m < 2 ^ 31
    → (dirty' : Bool) × (call_bplus c (leaf_of m dirty)
        ≡ some (
          (call_tree c (record { tree = m })).0,
          leaf_of (call_tree c (record { tree = m })).1.tree dirty',
        ))
      × Ascending (call_tree c (record { tree = m })).1.tree
unfolding call_bplus call_tree BTree.put BTree.get BTree.remove BTree.list_keys BTree.size
    BPlusTree.list_keys BPlusTree.size find_first_leaf keys_from count_from leftmost
call_bplus-call_tree (put key pos) m dirty h few =
    (true, rw (put-assign m key h few dirty pos) refl, put-IsSorted (record { tree = m }) key pos h)
call_bplus-call_tree (get key) m dirty h few = (dirty, rw (get-find m key h few dirty) refl, h)
call_bplus-call_tree (remove key) m dirty h few = remove_call key m dirty h few
call_bplus-call_tree list_keys m dirty h few = (dirty, rw (append-nil (keys_of m)) refl, h)
call_bplus-call_tree size m dirty h few = (
  dirty,
  let e : length (keys_of m) + 0 ≡ length m = omega (arith, length-keys_of m) in rw e refl,
  h,
)
