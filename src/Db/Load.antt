-- ===== src/Db/Load.antt =====
-- `load_index_from_data_files` of src/db.cpp: the index rebuilt from the records in the data files.
-- Writes outside transactions take effect where they stand, those of a transaction where its finish
-- mark stands.
pub mod Replay
pub mod Fuel
pub mod Recovery
pub mod Atomic
use raft_bitcask.Prelude.{
  ℕ, zero, suc, ◌+◌, ◌%◌, ◌^◌, Option, none, some, List, [], ◌∷◌, ◌++◌, true, false, ltb, leb, ◌==◌,
  if◌then◌else◌,
}
use raft_bitcask.Common.{
  Bytes, LogRecordType, Error, Result, ok, throw, read_data_file_eof, deleted, txn_finished,
  non_transaction_seq_no,
}
use raft_bitcask.Codec.Record.{LogRecord, LogRecordPos}
use raft_bitcask.Codec.SeqKey.{parse_log_record_key}
use raft_bitcask.Storage.FileSystem.{Calls}
use raft_bitcask.Storage.DataFile.{DataFile, ReadLogRecord, read_log_record, io_size}
use raft_bitcask.Index.BTree
use raft_bitcask.Index.BTree.{BTreeIndex, new_index}
use raft_bitcask.Db.{Db, reclaim, file_of, has_id}

pub record TransactionRecord : Type 0 where
  pub log_record : LogRecord
  pub pos : LogRecordPos

-- The index under construction, and the local variables of the function.
pub record LoadState : Type 0 where
  pub index : BTreeIndex
  pub reclaim_size : ℕ
  pub transaction_records : List (ℕ × List TransactionRecord)
  pub current_seq_no : ℕ

-- The lambda `update_index`.
unfoldable pub update_index : Bytes → LogRecordType → LogRecordPos → LoadState → LoadState
update_index key type pos s =
    if type == deleted
    then (let ((old, found), index') = BTree.remove s.index key in
        record s { index = index'; reclaim_size = reclaim old (reclaim (some pos) s.reclaim_size) })
    else (let (old, index') = BTree.put s.index key pos in
        record s { index = index'; reclaim_size = reclaim old s.reclaim_size })

-- `transaction_records.find(seq_no)`
unfoldable pub find_txn : ℕ → List (ℕ × List TransactionRecord) → Option (List TransactionRecord)
find_txn seq_no [] = none
find_txn seq_no ((k, records) ∷ rest) = if k == seq_no then some records else find_txn seq_no rest

-- `transaction_records.erase(it)`
unfoldable pub erase_txn : ℕ → List (ℕ × List TransactionRecord) → List (ℕ × List TransactionRecord)
erase_txn seq_no [] = []
erase_txn seq_no ((k, records) ∷ rest) =
    if k == seq_no then rest else (k, records) ∷ erase_txn seq_no rest

-- `transaction_records[seq_no].emplace_back(...)`
unfoldable pub stash :
    ℕ → TransactionRecord → List (ℕ × List TransactionRecord) → List (ℕ × List TransactionRecord)
stash seq_no t [] = (seq_no, t ∷ []) ∷ []
stash seq_no t ((k, records) ∷ rest) =
    if k == seq_no then (k, records ++ (t ∷ [])) ∷ rest else (k, records) ∷ stash seq_no t rest

-- The updates of a finished transaction, in the order of its records.
unfoldable pub apply_all : List TransactionRecord → LoadState → LoadState
apply_all [] s = s
apply_all (t ∷ rest) s = apply_all rest (update_index t.log_record.key t.log_record.type t.pos s)

unfoldable pub finish : ℕ → LoadState → LoadState
finish seq_no s = elim (find_txn seq_no s.transaction_records) [
  | none ↦ s
  | some records ↦
      let s' = apply_all records s in
      record s' { transaction_records = erase_txn seq_no s'.transaction_records }
]

-- `if (seq_no > current_seq_no) current_seq_no = seq_no;`
unfoldable pub note_seq : ℕ → LoadState → LoadState
note_seq seq_no s = if ltb s.current_seq_no seq_no then record s { current_seq_no = seq_no } else s

-- The body of the loop for a record that was read.
unfoldable pub process_record : LogRecord → LogRecordPos → LoadState → LoadState
process_record r pos s =
    let (real_key, seq_no) = parse_log_record_key r.key in
    note_seq seq_no (
      if seq_no == non_transaction_seq_no
      then update_index real_key r.type pos s
      else if r.type == txn_finished
      then finish seq_no s
      else record s {
        transaction_records =
            stash seq_no (record { log_record = record r { key = real_key }; pos = pos })
              s.transaction_records;
      })

pub data Outcome : Type 0 where
  record_read : ReadLogRecord → Outcome
  end_of_file : Outcome
  damaged : Outcome

-- The two `catch` clauses.
unfoldable pub outcome : Result ReadLogRecord → Outcome
outcome (ok r) = record_read r
outcome (throw read_data_file_eof) = end_of_file
outcome (throw _) = damaged

-- `files_to_process` (each file is entered under its own id): the files of `file_ids_` that there are,
-- and the active file if its id is not
-- among them.
unfoldable pub listed_files : Option DataFile → List (ℕ × DataFile) → List ℕ → List DataFile
listed_files active older [] = []
listed_files active older (fid ∷ rest) =
    let others = listed_files active older rest in
    elim (file_of active older fid) [ none ↦ others | some f ↦ f ∷ others ]

unfoldable pub files_to_process : {os : Calls} → Db os → List DataFile
files_to_process db =
    listed_files db.active_file db.older_files db.file_ids ++ elim db.active_file [
      | none ↦ []
      | some f ↦ if has_id f.file_id db.file_ids then [] else f ∷ []
    ]

-- `active_file_->set_write_off(offset)`, if the file is the active one.
unfoldable pub move_write_off : ℕ → ℕ → Option DataFile → Option DataFile
move_write_off fid offset none = none
move_write_off fid offset (some f) =
    some (if f.file_id == fid then record f { write_off = offset } else f)

-- A new index, and the local variables before the loop.
abbrev pub start : {os : Calls} → Db os → LoadState
start db = record {
  index = new_index;
  reclaim_size = db.reclaim_size;
  transaction_records = [];
  current_seq_no = non_transaction_seq_no;
}

module _ (os : Calls) where
  -- `while (true)` over one file. `none` means that the fuel ran out; the offset grows in each round
  -- but the last.
  unfoldable pub load_loop :
      ℕ → os.Disk → DataFile → ℕ → LoadState → Option (Result (LoadState × ℕ))
  load_loop zero d f offset s = none
  load_loop (suc fuel) d f offset s = elim (outcome (read_log_record os d f offset)) [
    | record_read r ↦ load_loop fuel d f (offset + r.size) (
        process_record r.log_record
          (record { fid = f.file_id; offset = offset; size = r.size % 2 ^ 32 }) s)
    | end_of_file ↦ some (ok (s, offset))
    | damaged ↦ elim (io_size os d f) [
      | throw e ↦ some (throw e)
      | ok file_size ↦ elim (leb file_size (offset + 1)) [
        | true ↦ some (ok (s, offset + 1))
        | false ↦ load_loop fuel d f (offset + 1) s
      ]
    ]
  ]

  -- The `for` loop: each file from its start, and the write offset of the active file moved to where
  -- the loop over it ended.
  unfoldable pub load_files :
      ℕ
      → os.Disk
      → List DataFile
      → Option DataFile
      → LoadState
      → Option (Result (LoadState × Option DataFile))
  load_files fuel d [] active s = some (ok (s, active))
  load_files fuel d (f ∷ rest) active s = elim (load_loop fuel d f 0 s) [
    | none ↦ none
    | some (throw e) ↦ some (throw e)
    | some (ok (s', offset)) ↦ load_files fuel d rest (move_write_off f.file_id offset active) s'
  ]

  -- `load_index_from_data_files` behind its first return; what it threw leaves the state of the
  -- object unspecified here.
  unfoldable pub load_index : ℕ → Db os → Option (Result (Db os))
  unfolding files_to_process
  load_index fuel db =
      elim (load_files fuel db.disk (files_to_process db) db.active_file (start db)) [
        | none ↦ none
        | some (throw e) ↦ some (throw e)
        | some (ok (s, active)) ↦ some (
            ok (record db {
              index = s.index;
              reclaim_size = s.reclaim_size;
              seq_no = s.current_seq_no;
              active_file = active;
            }))
      ]
