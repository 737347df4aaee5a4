-- ===== src/Db/Batch.antt =====
-- src/write_batch.cpp: a batch of writes, which `commit` logs under one sequence number with a finish
-- mark behind them, and then makes visible in the index. `commit` holds the lock of the database.
pub mod Run
pub mod Commit
use raft_bitcask.Prelude.{
  ℕ, ◌+◌, ◌%◌, ◌^◌, Bool, true, false, some, List, [], ◌∷◌, ◌++◌, length, leb, ◌==◌, if◌then◌else◌,
}
use raft_bitcask.Common.{
  Bytes, LogRecordType, Error, Result, ok, throw, key_empty, bitcask_exception, normal, deleted,
  txn_finished,
}
use raft_bitcask.Exec.{Exec, pure, raise, ◌>>=◌, go_on}
use raft_bitcask.Codec.Record.{LogRecord, LogRecordPos}
use raft_bitcask.Codec.SeqKey.{log_record_key_with_seq}
use raft_bitcask.Storage.FileSystem.{Calls}
use raft_bitcask.Index.BTree
use raft_bitcask.Db.{Db, append_log_record, reclaim, sync}

pub record WriteBatchOptions : Type 0 where
  pub max_batch_num : ℕ
  pub sync_writes : Bool

pub record WriteBatch : Type 0 where
  pub options : WriteBatchOptions
  pub pending_writes : List LogRecord
  pub seq_no : ℕ

-- `DB::new_write_batch`
pub new_write_batch : {os : Calls} → Db os → WriteBatchOptions → WriteBatch
new_write_batch db options = record {
  options = options;
  pending_writes = [];
  seq_no = (db.seq_no + 1) % 2 ^ 64;
}

-- The two guards and the `push_back` that `put` and `remove` have in common.
unfoldable pub push : Bytes → LogRecord → WriteBatch → Result WriteBatch
push [] r batch = throw key_empty
push (x ∷ xs) r batch =
    if leb batch.options.max_batch_num (length batch.pending_writes)
    then throw (bitcask_exception "Batch size exceeds maximum limit")
    else ok (record batch { pending_writes = batch.pending_writes ++ (r ∷ []) })

-- `WriteBatch::put`
unfoldable pub put : Bytes → Bytes → WriteBatch → Result WriteBatch
unfolding push
put key value batch = push key (record { key = key; value = value; type = normal }) batch

-- `WriteBatch::remove`
unfoldable pub remove : Bytes → WriteBatch → Result WriteBatch
unfolding push
remove key batch = push key (record { key = key; value = []; type = deleted }) batch

-- The record as it is logged: its key tagged with the number of the batch.
abbrev pub tagged : ℕ → LogRecord → LogRecord
tagged seq_no r = record r { key = log_record_key_with_seq r.key seq_no }

-- The finish mark.
abbrev pub txn_fin_record : ℕ → LogRecord
txn_fin_record seq_no = record {
  key = log_record_key_with_seq [] seq_no;
  value = [];
  type = txn_finished;
}

module _ {os : Calls} where
  -- The first loop of `commit`: the positions of the records.
  unfoldable pub append_pending : ℕ → List LogRecord → Exec (Db os) (List LogRecordPos)
  append_pending seq_no [] = pure []
  append_pending seq_no (r ∷ rest) = do
    pos ← append_log_record (tagged seq_no r)
    positions ← append_pending seq_no rest
    pure (pos ∷ positions)

  -- One round of the second loop.
  unfoldable pub update_index : LogRecord → LogRecordPos → Db os → Db os
  update_index r pos db =
      if r.type == normal
      then (let (old, index') = BTree.put db.index r.key pos in
          record db { index = index'; reclaim_size = reclaim old db.reclaim_size })
      else if r.type == deleted
      then (let ((old, found), index') = BTree.remove db.index r.key in
          record db {
            index = index';
            reclaim_size = reclaim old (reclaim (some pos) db.reclaim_size);
          })
      else db

  -- The second loop, over the records and their positions.
  unfoldable pub update_indexes : List LogRecord → List LogRecordPos → Db os → Db os
  update_indexes [] positions db = db
  update_indexes (r ∷ rest) [] db = db
  update_indexes (r ∷ rest) (pos ∷ positions) db =
      update_indexes rest positions (update_index r pos db)

  -- `if (options_.sync_writes) db_->active_file_->sync();`
  unfoldable pub sync_batch : Bool → Exec (Db os) (Unit {0})
  sync_batch true = sync
  sync_batch false = pure tt

  -- `db_->seq_no_.store(current_seq_no + 1); pending_writes_.clear();`
  unfoldable pub close_batch : WriteBatch → List LogRecordPos → Exec (Db os) WriteBatch
  unfolding update_indexes
  close_batch batch positions db = (
    ok (record batch { pending_writes = [] }),
    record (update_indexes batch.pending_writes positions db) {
      seq_no = (batch.seq_no + 1) % 2 ^ 64;
    },
  )

  -- `WriteBatch::commit` with records to write.
  unfoldable pub commit_pending : WriteBatch → Exec (Db os) WriteBatch
  commit_pending batch = do
    positions ← append_pending batch.seq_no batch.pending_writes
    _ ← append_log_record (txn_fin_record batch.seq_no)
    _ ← sync_batch batch.options.sync_writes
    close_batch batch positions

  -- `WriteBatch::commit`
  unfoldable pub commit : WriteBatch → Exec (Db os) WriteBatch
  unfolding commit_pending
  commit batch = elim batch.pending_writes [ [] ↦ pure batch | _ ∷ _ ↦ commit_pending batch ]
