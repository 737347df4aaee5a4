-- ===== src/Index/BPlusTree/File/RoundTrip.antt =====
-- What `load_from_file` of src/bplus_tree_index.cpp finds in a file that `save_to_file` wrote.
use raft_bitcask.Prelude.{
  take, take_all, ◌%◌, ◌^◌, ℕ, suc, ◌*◌, ◌≤◌, ◌<◌, ◌≡◌, refl, ap, ◌∙◌, Bool, false, some, List, [],
  ◌∷◌, ◌++◌, length, replicate, All, append-nil, append_assoc, arith,
}
use raft_bitcask.Common.{Bytes, IsU32, IsU64, bitcask_exception, throw, ok}
use raft_bitcask.Codec.LittleEndian.{
  push_le, or_le, length-push_le, or_le-push_le, or_le-push_le_four,
}
use raft_bitcask.Codec.Record.{LogRecordPos}
use raft_bitcask.Index.BTree.{keys_of}
use raft_bitcask.Index.BPlusTree.{node, no_child, null, leaf, new_node}
use raft_bitcask.Index.BPlusTree.Refine.{length-keys_of, values_of, leaf_of}
use raft_bitcask.Index.BPlusTree.File.{
  max_keys, serialize_bytes, serialize_pos, serialize_keys, serialize_values, serialize_node,
  deserialize_bytes, deserialize_pos, deserialize_keys, deserialize_values, deserialize_node,
  load_from_file, save_to_file,
}
use raft_bitcask.Index.BPlusTree.File.Reading.{opened, read, read-append}

-- The fields fit their types, and the size of the key fits the number in front of it.
abbrev pub Fits : Bytes × LogRecordPos → Type 0
Fits (k, pos) = IsU32 (length k) × IsU32 pos.fid × IsU64 pos.offset × IsU32 pos.size

read_four :
    (buffer rest : Bytes) (v : ℕ)
    → read 4 buffer (opened (push_le 4 0 v ++ rest)) ≡ (push_le 4 0 v, opened rest)
read_four buffer rest v = read-append 4 buffer (push_le 4 0 v) rest (length-push_le 4 0 v)

read_eight :
    (buffer rest : Bytes) (v : ℕ)
    → read 8 buffer (opened (push_le 8 0 v ++ rest)) ≡ (push_le 8 0 v, opened rest)
read_eight buffer rest v = read-append 8 buffer (push_le 8 0 v) rest (length-push_le 8 0 v)

deserialize-serialize_pos :
    (pos : LogRecordPos) (rest : Bytes)
    → IsU32 pos.fid
    → IsU64 pos.offset
    → IsU32 pos.size
    → deserialize_pos (opened (serialize_pos pos ++ rest)) ≡ (pos, opened rest)
unfolding deserialize_pos serialize_pos
deserialize-serialize_pos pos rest f o s =
    let fid = push_le 4 0 pos.fid in
    let offset = push_le 8 0 pos.offset in
    let size = push_le 4 0 pos.size in
    let order : (fid ++ (offset ++ size)) ++ rest ≡ fid ++ (offset ++ (size ++ rest)) =
      append_assoc fid (offset ++ size) rest ∙ ap (λ t. fid ++ t) (append_assoc offset size rest) in
    rw
      (
        order,
        read_four (replicate 4 0) (offset ++ (size ++ rest)) pos.fid,
        read_eight (replicate 8 0) (size ++ rest) pos.offset,
        read_four (replicate 4 0) rest pos.size,
        or_le-push_le_four pos.fid f,
        or_le-push_le pos.offset o,
        or_le-push_le_four pos.size s,
      )
      refl

deserialize-serialize_values :
    (m : List (Bytes × LogRecordPos)) (rest : Bytes)
    → All Fits m
    → deserialize_values (length m) (opened (serialize_values (values_of m) ++ rest))
      ≡ (values_of m, opened rest)
unfolding deserialize_values serialize_values
deserialize-serialize_values [] rest h = refl
deserialize-serialize_values ((k, pos) ∷ m) rest ((_, f, o, s), hs) =
    rw
      (
        append_assoc (serialize_pos pos) (serialize_values (values_of m)) rest,
        deserialize-serialize_pos pos (serialize_values (values_of m) ++ rest) f o s,
        deserialize-serialize_values m rest hs,
      )
      refl

module _ (stack : Bytes) where
  deserialize-serialize_bytes :
      (k rest : Bytes)
      → IsU32 (length k)
      → deserialize_bytes stack (opened (serialize_bytes k ++ rest)) ≡ (k, opened rest)
  unfolding deserialize_bytes serialize_bytes
  deserialize-serialize_bytes k rest h =
      let whole : take (length k % 2 ^ 32) k ≡ k =
        take_all (length k % 2 ^ 32) k (omega (arith, h)) in
      rw
        (
          whole,
          append_assoc (push_le 4 0 (length k)) k rest,
          read_four stack (k ++ rest) (length k),
          or_le-push_le_four (length k) h,
        )
        (read-append (length k) (replicate (length k) 0) k rest refl)

  deserialize-serialize_keys :
      (m : List (Bytes × LogRecordPos)) (rest : Bytes)
      → All Fits m
      → deserialize_keys stack (length m) (opened (serialize_keys (keys_of m) ++ rest))
        ≡ (keys_of m, opened rest)
  unfolding deserialize_keys serialize_keys keys_of
  deserialize-serialize_keys [] rest h = refl
  deserialize-serialize_keys ((k, pos) ∷ m) rest ((h, _, _, _), hs) =
      rw
        (
          append_assoc (serialize_bytes k) (serialize_keys (keys_of m)) rest,
          deserialize-serialize_bytes k (serialize_keys (keys_of m) ++ rest) h,
          deserialize-serialize_keys m rest hs,
        )
        refl

  -- The head of a leaf in the file: its type, and the number of its keys.
  head_few :
      (fuel n : ℕ) (rest : Bytes)
      → n ≤ max_keys * 2
      → deserialize_node stack (suc fuel) (opened (leaf ∷ (push_le 4 0 n ++ rest))) ≡ (
          let (keys, is) = deserialize_keys stack n (opened rest) in
          let (values, is') = deserialize_values n is in
          some (ok (node leaf keys values no_child null false, is')))
  unfolding deserialize_node or_le
  head_few fuel n rest few =
      rw
        (
          read-append 1 [] (leaf ∷ []) (push_le 4 0 n ++ rest) refl,
          read_four stack rest n,
          or_le-push_le_four n (omega arith),
        )
        (ground arith)

  head_many :
      (fuel n : ℕ) (rest : Bytes)
      → max_keys * 2 < n
      → IsU32 n
      → deserialize_node stack (suc fuel) (opened (leaf ∷ (push_le 4 0 n ++ rest)))
        ≡ some (throw (bitcask_exception "Invalid key count in serialized node"))
  unfolding deserialize_node or_le
  head_many fuel n rest many h =
      rw
        (
          read-append 1 [] (leaf ∷ []) (push_le 4 0 n ++ rest) refl,
          read_four stack rest n,
          or_le-push_le_four n h,
        )
        (ground arith)

  -- A leaf of at most 128 entries that fit the file comes back from it as it was written, but for
  -- the mark `is_dirty`.
  pub load_from_file-save_to_file :
      (m : List (Bytes × LogRecordPos)) (dirty : Bool)
      → length m ≤ max_keys * 2
      → All Fits m
      → load_from_file stack (some (save_to_file (leaf_of m dirty))) ≡ some (leaf_of m false)
  unfolding load_from_file save_to_file serialize_node
  load_from_file-save_to_file m dirty few h =
      let keys = serialize_keys (keys_of m) in
      let values = serialize_values (values_of m) in
      let end : deserialize_values (length m) (opened values) ≡ (values_of m, opened []) =
        rw (append-nil values) at (deserialize-serialize_values m [] h) in
      rw
        (
          length-keys_of m,
          load_from_file,
          head_few _ (length m) (keys ++ values) few,
          deserialize-serialize_keys m values h,
          end,
        )
        refl

  -- The file of a leaf of more than 128 entries, fewer than 2^32, is refused, and the tree is empty.
  pub load_from_file-save_to_file_many :
      (m : List (Bytes × LogRecordPos)) (dirty : Bool)
      → max_keys * 2 < length m
      → IsU32 (length m)
      → load_from_file stack (some (save_to_file (leaf_of m dirty))) ≡ some (new_node leaf)
  unfolding load_from_file save_to_file serialize_node
  load_from_file-save_to_file_many m dirty many h =
      let keys = serialize_keys (keys_of m) in
      let values = serialize_values (values_of m) in
      rw (length-keys_of m, load_from_file, head_many _ (length m) (keys ++ values) many h) refl
