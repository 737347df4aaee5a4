-- ===== src/Db/Merge.antt =====
-- `DB::merge` of src/db.cpp: the loop that copies the records which the index points to into the
-- database in the merge directory, with a hint file beside, and the mark of the finished merge. The
-- conditions of the merge and the copying of the directory back are not modelled.
pub mod Loop
pub mod Last
pub mod Kept
pub mod Compact
pub mod Stands
pub mod Files
use raft_bitcask.Prelude.{
  ℕ, zero, suc, ◌+◌, ◌%◌, ◌^◌, Bool, true, false, not, ◌&&◌, Option, none, some, List, [], ◌∷◌,
  ◌++◌, ◌==◌, if◌then◌else◌,
}
use raft_bitcask.Common.{Bytes, Result, ok, throw, normal, deleted, non_transaction_seq_no}
use raft_bitcask.Exec.{Exec, pure, ◌>>=◌, go_on}
use raft_bitcask.Codec.Record.{LogRecord, LogRecordPos, encode}
use raft_bitcask.Codec.SeqKey.{parse_log_record_key, log_record_key_with_seq}
use raft_bitcask.Storage.FileSystem.{FilePath, Calls}
use raft_bitcask.Storage.DataFile.{DataFile, ReadLogRecord, read_log_record, write_hint_record}
use raft_bitcask.Storage.DataFile
use raft_bitcask.Index.BTree
use raft_bitcask.Index.BTree.{BTreeIndex, find}
use raft_bitcask.Db.{Db, append_log_record}
use raft_bitcask.Db.FileName.{decimal}
use raft_bitcask.Db.Load.{record_read, end_of_file, damaged, outcome}

-- `valid_records`, over the keys of the index.
unfoldable pub valid_records : BTreeIndex → List Bytes → List (Bytes × LogRecordPos)
valid_records index [] = []
valid_records index (key ∷ keys) =
    let rest = valid_records index keys in
    elim (BTree.get index key) [ none ↦ rest | some pos ↦ (key, pos) ∷ rest ]

-- The test on `it`: the position is that of the record.
unfoldable pub is_current : Option LogRecordPos → ℕ → ℕ → Bool
is_current none fid offset = false
is_current (some pos) fid offset = (pos.fid == fid) && (pos.offset == offset)

-- `merge_db`, whose disk has all files, and `hint_file`.
pub record MergeState (os : Calls) : Type 0 where
  pub merge_db : Db os
  pub hint_file : DataFile

module _ {os : Calls} where
  -- `hint_file->write_hint_record(real_key, new_pos)`
  unfoldable pub write_hint : Bytes → LogRecordPos → Exec (MergeState os) (Unit {0})
  write_hint key pos st =
      let (disk', r) = write_hint_record os st.merge_db.disk st.hint_file key pos in
      let db' = record st.merge_db { disk = disk' } in
      elim r [
        | throw e ↦ (throw e, record st { merge_db = db' })
        | ok (hint, n) ↦ (ok tt, record { merge_db = db'; hint_file = hint })
      ]

  -- `merge_db->append_log_record_internal(log_record)`
  unfoldable pub append_merged : LogRecord → Exec (MergeState os) LogRecordPos
  append_merged r st =
      let (out, db') = append_log_record r st.merge_db in (out, record st { merge_db = db' })

  -- The body of the loop for a record that was read.
  unfoldable pub merge_record :
      List (Bytes × LogRecordPos) → ℕ → ℕ → LogRecord → Exec (MergeState os) (Unit {0})
  merge_record valid fid offset r =
      let (real_key, seq_no) = parse_log_record_key r.key in
      let clean = record r { key = log_record_key_with_seq real_key non_transaction_seq_no } in
      let copy = append_merged clean >>= λ pos. write_hint real_key pos in
      if is_current (find real_key valid) fid offset && not (r.type == deleted)
      then copy
      else pure tt

  -- What the `try` block does with a record that was read.
  abbrev pub attempt :
      List (Bytes × LogRecordPos)
      → DataFile
      → ℕ
      → Result ReadLogRecord
      → Exec (MergeState os) ReadLogRecord
  attempt valid f offset (throw e) st = (throw e, st)
  attempt valid f offset (ok r) st =
      (merge_record valid f.file_id offset r.log_record >>= λ _ s. (ok r, s)) st

module _ (os : Calls) where
  -- `while (true)` over one file. `none` means that the fuel ran out.
  unfoldable pub merge_loop :
      ℕ → List (Bytes × LogRecordPos) → DataFile → ℕ → MergeState os → Option (MergeState os)
  merge_loop zero valid f offset st = none
  merge_loop (suc fuel) valid f offset st =
      let (out, st') = attempt valid f offset (read_log_record os st.merge_db.disk f offset) st in
      elim (outcome out) [
        | record_read r ↦ merge_loop fuel valid f (offset + r.size) st'
        | end_of_file ↦ some st'
        | damaged ↦ merge_loop fuel valid f (offset + 1) st'
      ]

  -- The loop over `merge_files`.
  unfoldable pub merge_files :
      ℕ → List (Bytes × LogRecordPos) → List DataFile → MergeState os → Option (MergeState os)
  merge_files fuel valid [] st = some st
  merge_files fuel valid (f ∷ rest) st = elim (merge_loop fuel valid f 0 st) [
    | none ↦ none
    | some st' ↦ merge_files fuel valid rest st'
  ]

-- `non_merge_file_id`: one more than the id of the last file.
unfoldable pub non_merge_file_id : List DataFile → ℕ
non_merge_file_id [] = 0
non_merge_file_id (f ∷ []) = (f.file_id + 1) % 2 ^ 32
non_merge_file_id (f ∷ (g ∷ rest)) = non_merge_file_id (g ∷ rest)

-- `MERGE_FINISHED_KEY`
abbrev pub merge_finished_key : Bytes
merge_finished_key =
    b'm' ∷ b'e' ∷ b'r' ∷ b'g' ∷ b'e' ∷ b'.' ∷ b'f' ∷ b'i' ∷ b'n' ∷ b'i' ∷ b's' ∷ b'h' ∷ b'e' ∷ b'd'
    ∷ []

-- `merge_finished_record`
abbrev pub merge_finished_record : List DataFile → LogRecord
merge_finished_record files = record {
  key = merge_finished_key;
  value = decimal (non_merge_file_id files);
  type = normal;
}
