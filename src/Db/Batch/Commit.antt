-- ===== src/Db/Batch/Commit.antt =====
-- `WriteBatch::commit` where the batch fits the active file, on a disk that does not fail.
use raft_bitcask.Prelude.{
  ℕ, ◌+◌, ◌%◌, ◌^◌, ◌≤◌, ◌≡◌, ◌≢◌, refl, sym, ap, ◌∙◌, some, List, [], ◌∷◌, ◌++◌, append_assoc,
  append-nil, length, length-append, All, All-append, arith,
}
use raft_bitcask.Common.{Bytes, IsU64, ok}
use raft_bitcask.Codec.Record.{LogRecord, encode}
use raft_bitcask.Storage.FileSystem.{Calls, Reliable}
use raft_bitcask.Storage.DataFile.{DataFile}
use raft_bitcask.Storage.DataFile.Reads.{IsReadable}
use raft_bitcask.Db.{Db, append_log_record}
use raft_bitcask.Db.Load.Replay.{log_bytes, log_bytes-append, process_all, process_all-append}
use raft_bitcask.Db.Load.Recovery.{IsLogged, fresh}
use raft_bitcask.Db.Load.Atomic.{IsPending, tagged_all, positions, process_all-finished}
use raft_bitcask.Db.Batch.{
  WriteBatch, txn_fin_record, append_pending, update_indexes, sync_batch, close_batch,
  commit_pending, commit,
}
use raft_bitcask.Db.Batch.Run.{
  up_to, append-Logs, append_pending-Logs, sync_batch-Quiet, update_indexes-files,
}

-- What `commit` logs.
abbrev pub batch_log : ℕ → List LogRecord → List LogRecord
batch_log seq_no ps = tagged_all seq_no ps ++ (txn_fin_record seq_no ∷ [])

log_bytes-batch_log :
    (seq_no : ℕ) (ps : List LogRecord) (b : Bytes)
    → (b ++ log_bytes (tagged_all seq_no ps)) ++ (encode (txn_fin_record seq_no)).0
      ≡ b ++ log_bytes (batch_log seq_no ps)
log_bytes-batch_log seq_no ps b =
    let fin = (encode (txn_fin_record seq_no)).0 in
    append_assoc b (log_bytes (tagged_all seq_no ps)) fin
    ∙ ap (λ t. b ++ t)
        (ap (λ t. log_bytes (tagged_all seq_no ps) ++ t) (sym (append-nil fin))
          ∙ sym (log_bytes-append (tagged_all seq_no ps) (txn_fin_record seq_no ∷ [])))

module _ {os : Calls} {disk : Reliable os} (db : Db os) (f : DataFile) (rs : List LogRecord)
    (logged : IsLogged disk db f rs) where
  -- The replay of the log with the batch behind it, against the updates of the index.
  replay-batch :
      (seq_no : ℕ) (r : LogRecord) (ps : List LogRecord)
      → IsU64 seq_no
      → seq_no ≢ 0
      → All IsPending (r ∷ ps)
      → (n : ℕ) (after : Db os) → after.index ≡ db.index
      → ((process_all f.file_id 0 (rs ++ batch_log seq_no (r ∷ ps)) (fresh n)).index
          ≡ (update_indexes
              (r ∷ ps)
              (positions f.file_id seq_no (length (log_bytes rs)) (r ∷ ps))
              after).index)
        × ((process_all f.file_id 0 (rs ++ batch_log seq_no (r ∷ ps)) (fresh n)).transaction_records
            ≡ [])
  replay-batch seq_no r ps fits nonzero pending n after same =
      let e : 0 + length (log_bytes rs) ≡ length (log_bytes rs) = omega arith in
      let mid = process_all f.file_id 0 rs (fresh n) in
      let split : process_all f.file_id 0 (rs ++ batch_log seq_no (r ∷ ps)) (fresh n)
          ≡ process_all f.file_id (length (log_bytes rs)) (batch_log seq_no (r ∷ ps)) mid =
        process_all-append f.file_id 0 rs (batch_log seq_no (r ∷ ps)) (fresh n)
        ∙ ap (λ (k : ℕ). process_all f.file_id k (batch_log seq_no (r ∷ ps)) mid) e in
      let (index, records) =
        process_all-finished seq_no fits nonzero f.file_id (length (log_bytes rs)) r ps mid after
          pending (logged.closed n) (logged.replayed n ∙ sym same) in
      (ap (λ l. l.index) split ∙ index, ap (λ l. l.transaction_records) split ∙ records)

  -- Where the log of the active file is that of the index, `commit` of a batch that is not empty, holds
  -- writes and deletions within the limits of a record, has a 64-bit number that is not 0, and fits the
  -- active file, succeeds and empties the batch; the log ends with the tagged records and the finish
  -- mark, and its replay gives the index that `commit` left.
  pub commit-IsLogged :
      (batch : WriteBatch) (r : LogRecord) (ps : List LogRecord)
      → batch.pending_writes ≡ r ∷ ps
      → IsU64 batch.seq_no
      → batch.seq_no ≢ 0
      → All IsPending (r ∷ ps)
      → All IsReadable (batch_log batch.seq_no (r ∷ ps))
      → length (log_bytes rs) + length (log_bytes (batch_log batch.seq_no (r ∷ ps)))
        ≤ db.options.data_file_size
      → ((commit batch db).0 ≡ ok (record batch { pending_writes = [] }))
        × IsLogged disk
            (commit batch db).1
            (up_to f (log_bytes (rs ++ batch_log batch.seq_no (r ∷ ps))))
            (rs ++ batch_log batch.seq_no (r ∷ ps))
  unfolding commit commit_pending close_batch
  commit-IsLogged batch r ps holds fits nonzero pending readable room =
      let seq_no = batch.seq_no in
      let b = log_bytes rs in
      let tags = log_bytes (tagged_all seq_no (r ∷ ps)) in
      let fin = txn_fin_record seq_no in
      let at = positions f.file_id seq_no (length b) (r ∷ ps) in
      let whole = log_bytes-batch_log seq_no (r ∷ ps) b in
      let size : length b + length tags + length (encode fin).0
          ≡ length b + length (log_bytes (batch_log seq_no (r ∷ ps))) =
        omega (
          arith,
          ap length whole,
          length-append (b ++ tags) (encode fin).0,
          length-append b tags,
          length-append b (log_bytes (batch_log seq_no (r ∷ ps))),
        ) in
      let (done1, live1, tables1) =
        append_pending-Logs disk seq_no (r ∷ ps) db f b logged.live (omega arith) in
      let db1 = (append_pending seq_no (r ∷ ps) db).1 in
      let limit : db1.options.data_file_size ≡ db.options.data_file_size =
        ap (λ o. o.data_file_size) tables1.options in
      let (done2, live2, tables2) =
        append-Logs disk db1 (up_to f (b ++ tags)) (b ++ tags) fin live1
          (omega (arith, length-append b tags)) in
      let db2 = (append_log_record fin db1).1 in
      let (done3, live3, tables3) = sync_batch-Quiet disk batch.options.sync_writes db2 _ _ live2 in
      let db3 = (sync_batch batch.options.sync_writes db2).1 in
      let same : db3.index ≡ db.index = tables3.index ∙ tables2.index ∙ tables1.index in
      let (d, a) = update_indexes-files disk (r ∷ ps) at db3 in
      let layout : (b ++ tags) ++ (encode fin).0 ≡ log_bytes (rs ++ batch_log seq_no (r ∷ ps)) =
        whole ∙ sym (log_bytes-append rs (batch_log seq_no (r ∷ ps))) in
      let run : commit batch db ≡ (
        ok (record batch { pending_writes = [] }),
        record (update_indexes (r ∷ ps) at db3) { seq_no = (seq_no + 1) % 2 ^ 64 },
      ) =
        rw (commit, holds, commit_pending, holds, done1, done2, done3) refl in
      rw run (
        refl,
        record {
          live = record {
            active = a ∙ live3.active ∙ ap (λ t. some (up_to f t)) layout;
            opened = logged.live.opened;
            holds = ap (λ t. disk.content t f.path) d ∙ live3.holds ∙ ap some layout;
            at_end = refl;
          };
          readable = All-append IsReadable rs (batch_log seq_no (r ∷ ps)) logged.readable readable;
          replayed = λ n. (replay-batch seq_no r ps fits nonzero pending n db3 same).0;
          closed = λ n. (replay-batch seq_no r ps fits nonzero pending n db3 same).1;
        },
      )
