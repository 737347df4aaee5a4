-- ===== src/Tests/Index.antt =====
-- The index at concrete inputs.
use raft_bitcask.Prelude.{ℕ, ◌≡◌, some, [], ◌∷◌, if◌then◌else◌}
use raft_bitcask.Codec.Record.{LogRecordPos}
use raft_bitcask.Index.KeyOrder.{key_eq}
use raft_bitcask.Index.BTree.{BTreeIndex, new_index, put, get}
use raft_bitcask.Index.BTree.Laws.{get-put}

abbrev at_offset : ℕ → LogRecordPos
at_offset n = record { fid = 0; offset = n; size = 9 }

abbrev small : BTreeIndex
small = (put new_index (1 ∷ []) (at_offset 0)).1

get-put_example :
    (get (put small (2 ∷ []) (at_offset 9)).1 (1 ∷ [])
      ≡ (if key_eq (2 ∷ []) (1 ∷ []) then some (at_offset 9) else get small (1 ∷ [])))
    × ((put small (2 ∷ []) (at_offset 9)).0 ≡ get small (2 ∷ []))
get-put_example = get-put small (2 ∷ []) (1 ∷ []) (at_offset 9)
