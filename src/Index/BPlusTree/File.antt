-- ===== src/Index/BPlusTree/File.antt =====
-- The index file of src/bplus_tree_index.cpp: `serialize_node`, `deserialize_node`, and the tree that
-- the constructor finds in the file. Numbers lie in memory with the lowest byte first.
pub mod Reading
pub mod RoundTrip
use raft_bitcask.Prelude.{
  take, ◌%◌, ◌^◌, ℕ, zero, suc, ◌+◌, ◌*◌, ◌%◌, ◌^◌, Bool, true, false, not, Option, none, some,
  List, [], ◌∷◌, ◌++◌, length, replicate, ltb, ◌==◌, if◌then◌else◌,
}
use raft_bitcask.Common.{Bytes, Result, ok, throw, bitcask_exception}
use raft_bitcask.Codec.LittleEndian.{push_le, or_le}
use raft_bitcask.Codec.Record.{LogRecordPos}
use raft_bitcask.Index.BPlusTree.{
  BPlusTreeNode, Children, node, no_child, child, null, leaf, new_node,
}
use raft_bitcask.Index.BPlusTree.File.Reading.{Stream, opened, read}

-- `MAX_KEYS`
abbrev pub max_keys : ℕ
max_keys = 64

-- The size is that of a `uint32_t`, and so many bytes follow.
unfoldable pub serialize_bytes : Bytes → Bytes
serialize_bytes bytes = push_le 4 0 (length bytes) ++ take (length bytes % 2 ^ 32) bytes

unfoldable pub serialize_pos : LogRecordPos → Bytes
serialize_pos pos = push_le 4 0 pos.fid ++ (push_le 8 0 pos.offset ++ push_le 4 0 pos.size)

unfoldable pub serialize_keys : List Bytes → Bytes
serialize_keys [] = []
serialize_keys (k ∷ ks) = serialize_bytes k ++ serialize_keys ks

unfoldable pub serialize_values : List LogRecordPos → Bytes
serialize_values [] = []
serialize_values (v ∷ vs) = serialize_pos v ++ serialize_values vs

-- The bytes that `serialize_node` writes.
unfoldable mutual
  pub serialize_node : BPlusTreeNode → Bytes
  serialize_node (node type keys values children next dirty) =
      let below = serialize_children children in
      type % 256
      ∷ (push_le 4 0 (length keys)
          ++ (serialize_keys keys ++ (if type == leaf then serialize_values values else below)))

  pub serialize_children : Children → Bytes
  serialize_children no_child = []
  serialize_children (child c rest) = serialize_node c ++ serialize_children rest

-- The constructor of `LogRecordPos` sets the fields to 0.
unfoldable pub deserialize_pos : Stream → LogRecordPos × Stream
deserialize_pos is =
    let (fid, is') = read 4 (replicate 4 0) is in
    let (offset, is'') = read 8 (replicate 8 0) is' in
    let (size, is''') = read 4 (replicate 4 0) is'' in
    (record { fid = or_le 0 0 fid; offset = or_le 0 0 offset; size = or_le 0 0 size }, is''')

-- The loop `i < key_count && is.good()` over the values.
unfoldable pub deserialize_values : ℕ → Stream → List LogRecordPos × Stream
deserialize_values zero is = ([], is)
deserialize_values (suc n) is =
    let (v, is') = deserialize_pos is in
    let (vs, is'') = deserialize_values n is' in if is.good then (v ∷ vs, is'') else ([], is)

abbrev with_leaf : ℕ → List Bytes → List LogRecordPos × Stream → BPlusTreeNode × Stream
with_leaf type keys (values, is) = (node type keys values no_child null false, is)

abbrev with_child :
    BPlusTreeNode → Option (Result (Children × Stream)) → Option (Result (Children × Stream))
with_child c none = none
with_child c (some (throw e)) = some (throw e)
with_child c (some (ok (cs, is))) = some (ok (child c cs, is))

abbrev with_internal :
    ℕ → List Bytes → Option (Result (Children × Stream)) → Option (Result (BPlusTreeNode × Stream))
with_internal type keys none = none
with_internal type keys (some (throw e)) = some (throw e)
with_internal type keys (some (ok (children, is))) =
    some (ok (node type keys [] children null false, is))

-- What a number of four bytes holds before it is read is `stack`; only a read that fails leaves it.
module _ (stack : Bytes) where
  unfoldable pub deserialize_bytes : Stream → Bytes × Stream
  deserialize_bytes is =
      let (size, is') = read 4 stack is in read (or_le 0 0 size) (replicate (or_le 0 0 size) 0) is'

  -- The loop `i < key_count && is.good()` over the keys.
  unfoldable pub deserialize_keys : ℕ → Stream → List Bytes × Stream
  deserialize_keys zero is = ([], is)
  deserialize_keys (suc n) is =
      let (k, is') = deserialize_bytes is in
      let (ks, is'') = deserialize_keys n is' in if is.good then (k ∷ ks, is'') else ([], is)

  -- The loop `i <= key_count && is.good()`; the number counts its rounds.
  unfoldable pub deserialize_children :
      (Stream → Option (Result (BPlusTreeNode × Stream)))
      → ℕ
      → Stream
      → Option (Result (Children × Stream))
  deserialize_children deserialize zero is = some (ok (no_child, is))
  deserialize_children deserialize (suc n) is =
      if is.good
      then elim (deserialize is) [
        | none ↦ none
        | some (throw e) ↦ some (throw e)
        | some (ok (c, is')) ↦ with_child c (deserialize_children deserialize n is')
      ]
      else some (ok (no_child, is))

  -- `deserialize_node`, on fuel for the depth of the tree; `none` means that it ran out. A node takes
  -- five bytes at least, so the length of the file is enough.
  unfoldable pub deserialize_node : ℕ → Stream → Option (Result (BPlusTreeNode × Stream))
  deserialize_node zero is = none
  deserialize_node (suc fuel) is =
      let (type, is1) = read 1 [] is in
      let (count, is2) = read 4 stack is1 in
      let key_count = or_le 0 0 count in
      let (keys, is3) = deserialize_keys key_count is2 in
      let below = deserialize_children (λ s. deserialize_node fuel s) (suc key_count) is3 in
      if not is.good
      then some (throw (bitcask_exception "Invalid stream state during deserialization"))
      else if not is1.good
      then some (throw (bitcask_exception "Failed to read node type"))
      else if not is2.good
      then some (throw (bitcask_exception "Failed to read key count"))
      else if ltb (max_keys * 2) key_count
      then some (throw (bitcask_exception "Invalid key count in serialized node"))
      else if or_le 0 0 type == leaf
      then some (ok (with_leaf (or_le 0 0 type) keys (deserialize_values key_count is3)))
      else with_internal (or_le 0 0 type) keys below

  -- The root that the constructor and `load_from_file` give for the contents of the file; an empty
  -- leaf where there is none, where it is empty, and where it is refused.
  unfoldable pub load_from_file : Option Bytes → Option BPlusTreeNode
  load_from_file none = some (new_node leaf)
  load_from_file (some []) = some (new_node leaf)
  load_from_file (some (b ∷ bs)) = elim (deserialize_node (length (b ∷ bs)) (opened (b ∷ bs))) [
    | none ↦ none
    | some (throw e) ↦ some (new_node leaf)
    | some (ok (root, is)) ↦ some root
  ]

-- The contents of the file behind `save_to_file`, where it can be opened for writing.
unfoldable pub save_to_file : BPlusTreeNode → Bytes
save_to_file root = serialize_node root
