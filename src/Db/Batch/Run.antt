-- ===== src/Db/Batch/Run.antt =====
-- The parts of `WriteBatch::commit` where the batch fits the active file, on a disk that does not
-- fail: its appends, its synchronisation and its updates of the index.
use raft_bitcask.Prelude.{
  ℕ, ◌+◌, ◌≤◌, ◌≡◌, refl, ap, ◌∙◌, Bool, true, false, none, some, List, [], ◌∷◌, ◌++◌, append_assoc,
  append-nil, length, length-append, arith,
}
use raft_bitcask.Common.{Bytes, ok, Result}
use raft_bitcask.Codec.Record.{LogRecord, LogRecordPos, encode}
use raft_bitcask.Storage.FileSystem.{Calls, Reliable}
use raft_bitcask.Storage.DataFile.{DataFile}
use raft_bitcask.Db.{Db, append_log_record, sync, sync_file}
use raft_bitcask.Db.Append.{
  IsLive, SameTables, written, Quiet, sync_file-Quiet, append_log_record-IsLive,
}
use raft_bitcask.Db.Load.Replay.{log_bytes, pos_at}
use raft_bitcask.Db.Load.Atomic.{tagged_all, positions}
use raft_bitcask.Db.Batch.{tagged, append_pending, update_index, update_indexes, sync_batch}

-- The file, written up to the end of `b`.
abbrev pub up_to : DataFile → Bytes → DataFile
up_to f b = record f { write_off = length b }

SameTables-trans : {os : Calls} (x y z : Db os) → SameTables x y → SameTables y z → SameTables x z
SameTables-trans x y z a b = record {
  options = b.options ∙ a.options;
  index = b.index ∙ a.index;
  older_files = b.older_files ∙ a.older_files;
  file_ids = b.file_ids ∙ a.file_ids;
  seq_no = b.seq_no ∙ a.seq_no;
  reclaim_size = b.reclaim_size ∙ a.reclaim_size;
}

SameTables-refl : {os : Calls} (x : Db os) → SameTables x x
SameTables-refl x = record {
  options = refl;
  index = refl;
  older_files = refl;
  file_ids = refl;
  seq_no = refl;
  reclaim_size = refl;
}

module _ {os : Calls} (disk : Reliable os) where
  IsLive-up_to :
      (db : Db os) (f g : DataFile) (b : Bytes)
      → g ≡ record f { write_off = g.write_off }
      → IsLive disk db g b
      → IsLive disk db (up_to f b) b
  IsLive-up_to db f g b same live =
      let e : g ≡ up_to f b = same ∙ ap (λ (n : ℕ). record f { write_off = n }) live.at_end in
      rw e at live

  -- What a run of writes does that succeeds: it returns `a`, the log becomes `b`, the tables stay.
  abbrev pub Logs : {A : Type 0} → Db os → DataFile → Bytes → A → Result A × Db os → Type 0
  Logs db f b a out = (out.0 ≡ ok a) × IsLive disk out.1 (up_to f b) b × SameTables db out.1

  pub append-Logs :
      (db : Db os) (f : DataFile) (b : Bytes) (r : LogRecord)
      → IsLive disk db f b
      → length b + length (encode r).0 ≤ db.options.data_file_size
      → Logs db f (b ++ (encode r).0) (pos_at f.file_id (length b) r) (append_log_record r db)
  append-Logs db f b r live room =
      let (done, live', tables) = append_log_record-IsLive disk db f b r live room in
      (
        done,
        IsLive-up_to (append_log_record r db).1 f (written disk f (encode r).0) (b ++ (encode r).0)
            refl live',
        tables,
      )

  pub append_pending-Logs :
      (seq_no : ℕ) (ps : List LogRecord) (db : Db os) (f : DataFile) (b : Bytes)
      → IsLive disk db f b
      → length b + length (log_bytes (tagged_all seq_no ps)) ≤ db.options.data_file_size
      → Logs db f
          (b ++ log_bytes (tagged_all seq_no ps))
          (positions f.file_id seq_no (length b) ps)
          (append_pending seq_no ps db)
  unfolding append_pending
  append_pending-Logs seq_no [] db f b live room =
      (refl, rw (append-nil b) (IsLive-up_to db f f b refl live), SameTables-refl db)
  append_pending-Logs seq_no (r ∷ ps) db f b live room =
      let bytes = (encode (tagged seq_no r)).0 in
      let more = log_bytes (tagged_all seq_no ps) in
      let size : length (b ++ bytes) ≡ length b + length bytes = length-append b bytes in
      let (done, live', tables) =
        append-Logs db f b (tagged seq_no r) live (omega (arith, length-append bytes more)) in
      let db' = (append_log_record (tagged seq_no r) db).1 in
      let limit : db'.options.data_file_size ≡ db.options.data_file_size =
        ap (λ o. o.data_file_size) tables.options in
      let (done', live'', tables') =
        append_pending-Logs seq_no ps db' (up_to f (b ++ bytes)) (b ++ bytes) live'
          (omega (arith, length-append bytes more)) in
      let all : Logs db f ((b ++ bytes) ++ more)
          (pos_at f.file_id (length b) (tagged seq_no r)
            ∷ positions f.file_id seq_no (length b + length bytes) ps)
          (append_pending seq_no (r ∷ ps) db) =
        rw (append_pending, done, done')
          (
            ap
                (λ (n : ℕ).
                  ok (
                    pos_at f.file_id (length b) (tagged seq_no r)
                    ∷ positions f.file_id seq_no n ps))
                size,
            live'',
            SameTables-trans db db' _ tables tables',
          ) in
      rw (append_assoc b bytes more) at all

  sync-active : (db : Db os) (f : DataFile) → db.active_file ≡ some f → sync db ≡ sync_file f db
  unfolding sync
  sync-active db f e = ap (λ a. elim a [ none ↦ (ok tt, db) | some g ↦ sync_file g db ]) e

  pub sync_batch-Quiet :
      (t : Bool) (db : Db os) (f : DataFile) (b : Bytes)
      → IsLive disk db f b
      → Quiet disk db f b (sync_batch t db)
  unfolding sync_batch
  sync_batch-Quiet true db f b live =
      rw (sync-active db f live.active) (sync_file-Quiet disk db db.bytes_write f f b live)
  sync_batch-Quiet false db f b live = (refl, live, SameTables-refl db)

  -- The updates of the index leave disk and files.
  pub update_indexes-files :
      (ps : List LogRecord) (l : List LogRecordPos) (db : Db os)
      → ((update_indexes ps l db).disk ≡ db.disk)
        × ((update_indexes ps l db).active_file ≡ db.active_file)
  unfolding update_indexes update_index
  update_indexes-files [] l db = (refl, refl)
  update_indexes-files (r ∷ ps) [] db = (refl, refl)
  update_indexes-files (r ∷ ps) (pos ∷ l) db =
      let (d, a) = update_indexes-files ps l (update_index r pos db) in
      (d ∙ ground arith, a ∙ ground arith)
