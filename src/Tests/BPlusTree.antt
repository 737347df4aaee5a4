-- ===== src/Tests/BPlusTree.antt =====
-- The B+ tree index at concrete inputs.
use raft_bitcask.Prelude.{
  ℕ, ◌≡◌, refl, true, false, some, List, [], ◌∷◌, replicate, reverse, get_elem?, arith,
}
use raft_bitcask.Common.{Bytes}
use raft_bitcask.Codec.Record.{LogRecordPos}
use raft_bitcask.Index.KeyOrder.{key_compare}
use raft_bitcask.Index.BTree.Sorted.{Ascending}
use raft_bitcask.Index.BTree.Iterator.{first_index, key_le}
use raft_bitcask.Index.BPlusTree.{new_node, leaf, find_key_position}
use raft_bitcask.Index.BPlusTree.Search.{lower_bound, find_key_position-lower_bound}
use raft_bitcask.Index.BPlusTree.Refine.{leaf_of}
use raft_bitcask.Index.BPlusTree.Run
use raft_bitcask.Index.BPlusTree.Run.{Call}
use raft_bitcask.Index.BPlusTree.File.{load_from_file, save_to_file}
use raft_bitcask.Index.BPlusTree.File.RoundTrip.{
  load_from_file-save_to_file, load_from_file-save_to_file_many,
}
use raft_bitcask.Index.BPlusTree.Iterator.{found_by}
use raft_bitcask.Index.BPlusTree.Iterator.Seek.{found_by-forward}
use raft_bitcask.Index.BPlusTree.Iterator.Reverse.{found_by-reverse, greatest_if}

abbrev at_byte : ℕ → LogRecordPos
at_byte n = record { fid = 1; offset = n; size = 20 }

abbrev few_calls : List Call
few_calls =
    Run.put (2 ∷ []) (at_byte 0)
    ∷ Run.put (1 ∷ 7 ∷ []) (at_byte 20)
    ∷ Run.put (2 ∷ []) (at_byte 40)
    ∷ Run.get (2 ∷ [])
    ∷ Run.remove (2 ∷ [])
    ∷ Run.list_keys
    ∷ Run.size
    ∷ []

abbrev three_keys : List Bytes
three_keys = (1 ∷ []) ∷ (1 ∷ 5 ∷ []) ∷ (3 ∷ []) ∷ []

find_key_position-lower_bound_example :
    find_key_position three_keys (2 ∷ []) ≡ lower_bound (2 ∷ []) three_keys
unfolding key_compare
find_key_position-lower_bound_example =
    find_key_position-lower_bound three_keys (2 ∷ []) ((refl, (refl, tt)), ((refl, tt), (tt, tt)))
      (omega arith)

abbrev two_items : List (Bytes × LogRecordPos)
two_items = ((1 ∷ []), at_byte 0) ∷ ((4 ∷ []), at_byte 20) ∷ []

two_items-Ascending : Ascending two_items
unfolding key_compare
two_items-Ascending = ((refl, tt), (tt, tt))

load_from_file-save_to_file_example :
    load_from_file [] (some (save_to_file (leaf_of two_items true)))
    ≡ some (leaf_of two_items false)
load_from_file-save_to_file_example = load_from_file-save_to_file [] two_items true (omega arith) (
  (omega arith, omega arith, omega arith, omega arith),
  ((omega arith, omega arith, omega arith, omega arith), tt),
)

abbrev many_items : List (Bytes × LogRecordPos)
many_items = replicate 129 ((1 ∷ []), at_byte 0)

load_from_file-save_to_file_many_example :
    load_from_file [] (some (save_to_file (leaf_of many_items true))) ≡ some (new_node leaf)
load_from_file-save_to_file_many_example =
    load_from_file-save_to_file_many [] many_items true (omega arith) (omega arith)

found_by-forward_example :
    found_by (leaf_of two_items true) false (2 ∷ [])
    ≡ some (get_elem? two_items (first_index (λ k. key_le (2 ∷ []) k) two_items))
found_by-forward_example = found_by-forward two_items true (2 ∷ [])

found_by-reverse_example :
    found_by (leaf_of two_items true) true (2 ∷ [])
    ≡ some (greatest_if (2 ∷ []) (reverse two_items))
found_by-reverse_example = found_by-reverse two_items true (2 ∷ []) two_items-Ascending
