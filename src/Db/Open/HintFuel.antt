-- ===== src/Db/Open/HintFuel.antt =====
-- The fuel of the loop of `load_index_from_hint_file` in src/db.cpp.
use raft_bitcask.Prelude.{ℕ, zero, suc, ◌+◌, ◌<◌, ◌≡◌, refl, true, Option, some, length, arith}
use raft_bitcask.Common.{Bytes, Result, ok, throw, read_data_file_eof}
use raft_bitcask.Codec.Record.{decode_pos}
use raft_bitcask.Storage.FileSystem.{Calls, Reliable}
use raft_bitcask.Storage.DataFile.{DataFile, read_log_record}
use raft_bitcask.Storage.DataFile.Reads.{read_log_record_end}
use raft_bitcask.Index.BTree
use raft_bitcask.Index.BTree.{BTreeIndex}
use raft_bitcask.Db.Load.Fuel.{read_log_record_moves}
use raft_bitcask.Db.Open.{hint_loop}

abbrev Ends : Option (Result BTreeIndex) → Type 0
Ends o = (r : Result BTreeIndex) × (o ≡ some r)

-- Where a round stops at an exception, it ends the loop.
or_stop-Ends :
    {A : Type 0} (m : Result A) (index : BTreeIndex) (rest : A → Option (Result BTreeIndex))
    → ((a : A) → m ≡ ok a → Ends (rest a))
    → Ends (elim m as (λ _. Option (Result BTreeIndex)) [
      | throw read_data_file_eof ↦ some (ok index)
      | throw e ↦ some (throw e)
      | ok a ↦ rest a
    ])
or_stop-Ends (ok a) index rest h = h a refl
or_stop-Ends (throw read_data_file_eof) index rest h = (ok index, refl)
or_stop-Ends (throw e) index rest h = (throw e, refl)

module _ {os : Calls} (disk : Reliable os) (d : os.Disk) (f : DataFile) (b : Bytes)
    (opened : f.is_open ≡ true) (has : disk.content d f.path ≡ some b) where
  -- On a disk that does not fail, with fuel for each byte behind `offset` and one round more, the loop
  -- over an open hint file comes to an end, with an index or an exception, whatever the file holds.
  pub hint_loop-Ends :
      (fuel offset : ℕ) (index : BTreeIndex)
      → 0 < fuel
      → length b < fuel + offset
      → (r : Result BTreeIndex) × (hint_loop os fuel d f offset index ≡ some r)
  unfolding hint_loop
  hint_loop-Ends zero offset index some_fuel enough = absurd (omega arith)
  hint_loop-Ends (suc zero) offset index some_fuel enough =
      rw (hint_loop, read_log_record_end disk d f b opened has offset (omega arith))
        (ok index, refl)
  hint_loop-Ends (suc (suc fuel)) offset index some_fuel enough =
      or_stop-Ends (read_log_record os d f offset) index _ (λ r e.
        let step = read_log_record_moves os d f offset r e in
        or_stop-Ends (decode_pos r.log_record.value) index _ (λ pos e'.
          hint_loop-Ends (suc fuel) (offset + r.size) (BTree.put index r.log_record.key pos).1
            (omega arith) (omega (arith, step))))
