-- ===== src/Tests/Iterator.antt =====
-- Iterators with a prefix over three keys.
use raft_bitcask.Prelude.{◌≡◌, refl, true, false, [], ◌∷◌, ℕ}
use raft_bitcask.Common.{ok}
use raft_bitcask.Codec.Record.{LogRecordPos}
use raft_bitcask.Index.KeyOrder.{key_compare}
use raft_bitcask.Index.BTree.{BTreeIndex}
use raft_bitcask.Index.BTree.Iterator.{iterator, first_index, key_le}
use raft_bitcask.Index.BTree.Iterator
use raft_bitcask.Index.BTree.Sorted.{IsSorted}
use raft_bitcask.Db.{Db}
use raft_bitcask.Db.Iterator.{new_iterator, rewind, valid, key, to_prefix, has_prefix, matches}
use raft_bitcask.Db.Iterator.Prefix.{some_key_has, valid-rewind, key-rewind}
use raft_bitcask.Tests.Db.{empty_db}
use raft_bitcask.Tests.Disk.{memory}

abbrev at_offset : ℕ → LogRecordPos
at_offset n = record { fid = 0; offset = n; size = 9 }

abbrev index : BTreeIndex
index = record {
  tree = (1 ∷ [], at_offset 0) ∷ (2 ∷ [], at_offset 9) ∷ (2 ∷ 5 ∷ [], at_offset 18) ∷ [];
}

abbrev three_keys : Db memory
three_keys = record empty_db { index = index }

three_keys-IsSorted : IsSorted index
unfolding key_compare
three_keys-IsSorted = ((refl, (refl, tt)), ((refl, tt), (tt, tt)))

valid-rewind_example :
    valid (rewind (new_iterator three_keys (record { prefix = 2 ∷ []; reverse = false })))
    ≡ some_key_has (2 ∷ []) index.tree
valid-rewind_example = valid-rewind three_keys 2 [] three_keys-IsSorted

reverse_valid :
    valid (rewind (new_iterator three_keys (record { prefix = 2 ∷ []; reverse = true }))) ≡ true
unfolding valid rewind new_iterator to_prefix has_prefix matches first_index key_le key_compare
    Iterator.iterator Iterator.rewind Iterator.seek Iterator.valid Iterator.current
reverse_valid = refl

key-rewind_example :
    key (rewind (new_iterator three_keys (record { prefix = 2 ∷ []; reverse = true })))
    ≡ ok (2 ∷ [])
key-rewind_example = key-rewind three_keys 2 [] reverse_valid
