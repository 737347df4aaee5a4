-- ===== src/Db/Append.antt =====
-- `append_log_record_internal` where the record fits the active file, on a disk that does not fail.
use raft_bitcask.Prelude.{
  ℕ, ◌+◌, ◌%◌, ◌^◌, ◌≤◌, ◌≡◌, ◌≢◌, refl, ◌∙◌, Bool, true, false, some, ◌++◌, length, length-append,
  if◌then◌else◌, arith, Bool-cases, inl, inr,
}
use raft_bitcask.Common.{Bytes, Result, ok}
use raft_bitcask.Codec.Record.{LogRecord, LogRecordPos, encode}
use raft_bitcask.Codec.Record.Size.{encoded_size-length}
use raft_bitcask.Storage.FileSystem.{FilePath, Calls, Reliable}
use raft_bitcask.Storage.DataFile.{DataFile}
use raft_bitcask.Storage.DataFile
use raft_bitcask.Storage.DataFile.Writes.{write-content, write_end, write_other}
use raft_bitcask.Db.{
  Db, ensure_active, rotate_if_full, write_active, sync_policy, sync_file, append_log_record,
}

-- The active file is open, holds `b`, and is written at its end.
pub record IsLive {os : Calls} (disk : Reliable os) (db : Db os) (f : DataFile) (b : Bytes)
    : Type 0 where
  pub active : db.active_file ≡ some f
  pub opened : f.is_open ≡ true
  pub holds : disk.content db.disk f.path ≡ some b
  pub at_end : f.write_off ≡ length b

-- What a write to the log leaves alone.
pub record SameTables {os : Calls} (db db' : Db os) : Type 0 where
  pub options : db'.options ≡ db.options
  pub index : db'.index ≡ db.index
  pub older_files : db'.older_files ≡ db.older_files
  pub file_ids : db'.file_ids ≡ db.file_ids
  pub seq_no : db'.seq_no ≡ db.seq_no
  pub reclaim_size : db'.reclaim_size ≡ db.reclaim_size

module _ {os : Calls} (disk : Reliable os) where
  abbrev pub written : DataFile → Bytes → DataFile
  written f bytes = record f { write_off = f.write_off + length bytes }

  abbrev after_write : Db os → DataFile → Bytes → Db os
  after_write db f bytes = record db {
    disk = (DataFile.write os db.disk f bytes).0;
    active_file = some (written f bytes);
  }

  write_active-live :
      (db : Db os) (f : DataFile) (b bytes : Bytes)
      → IsLive disk db f b
      → write_active f bytes db ≡ (ok (written f bytes), after_write db f bytes)
  unfolding write_active
  write_active-live db f b bytes live =
      rw (write_active, (write-content disk db.disk f b bytes live.opened live.holds).0)

  after_write-IsLive :
      (db : Db os) (f : DataFile) (b bytes : Bytes)
      → IsLive disk db f b
      → IsLive disk (after_write db f bytes) (written f bytes) (b ++ bytes)
  after_write-IsLive db f b bytes live = record {
    active = refl;
    opened = live.opened;
    holds = write_end disk db.disk f b bytes live.opened live.holds live.at_end;
    at_end = omega (arith, live.at_end, length-append b bytes);
  }

  -- A step behind the write: it succeeds, and log and tables stay.
  abbrev pub Quiet : Db os → DataFile → Bytes → Result (Unit {0}) × Db os → Type 0
  Quiet db f b out = (out.0 ≡ ok tt) × IsLive disk out.1 f b × SameTables db out.1

  Quiet-if :
      (db : Db os) (f : DataFile) (b : Bytes) (t : Bool) (x y : Result (Unit {0}) × Db os)
      → Quiet db f b x
      → Quiet db f b y
      → Quiet db f b (if t then x else y)
  Quiet-if db f b true x y hx hy = hx
  Quiet-if db f b false x y hx hy = hy

  same : (db : Db os) (n : ℕ) → SameTables db (record db { bytes_write = n })
  same db n = record {
    options = refl;
    index = refl;
    older_files = refl;
    file_ids = refl;
    seq_no = refl;
    reclaim_size = refl;
  }

  pub sync_file-Quiet :
      (db : Db os) (n : ℕ) (g f : DataFile) (b : Bytes)
      → IsLive disk db f b
      → Quiet db f b (sync_file g (record db { bytes_write = n }))
  unfolding sync_file
  sync_file-Quiet db n g f b live = elim (Bool-cases g.is_open) [
    | inl e ↦ rw e (
      refl,
      record {
        active = live.active;
        opened = live.opened;
        holds = disk.flush-content db.disk g.path f.path ∙ live.holds;
        at_end = live.at_end;
      },
      record {
        options = refl;
        index = refl;
        older_files = refl;
        file_ids = refl;
        seq_no = refl;
        reclaim_size = refl;
      },
    )
    | inr e ↦ rw e (
      refl,
      record {
        active = live.active;
        opened = live.opened;
        holds = live.holds;
        at_end = live.at_end;
      },
      same db n,
    )
  ]

  sync_policy-Quiet :
      (db : Db os) (g f : DataFile) (b : Bytes) (size : ℕ)
      → IsLive disk db f b
      → Quiet db f b (sync_policy g size db)
  unfolding sync_policy
  sync_policy-Quiet db g f b size live = Quiet-if db f b _ _ _ (sync_file-Quiet db 0 g f b live) (
    refl,
    record { active = live.active; opened = live.opened; holds = live.holds; at_end = live.at_end },
    same db _,
  )

  -- The position of a record that is appended to `b`.
  abbrev pub appended_at : DataFile → Bytes → LogRecord → LogRecordPos
  appended_at f b r = record {
    fid = f.file_id;
    offset = length b;
    size = length (encode r).0 % 2 ^ 32;
  }

  -- On a disk that does not fail, where the record fits the active file,
  -- `append_log_record_internal` returns the position at its end, and appends the record's bytes; the
  -- tables stay.
  pub append_log_record-IsLive :
      (db : Db os) (f : DataFile) (b : Bytes) (r : LogRecord)
      → IsLive disk db f b
      → length b + length (encode r).0 ≤ db.options.data_file_size
      → ((append_log_record r db).0 ≡ ok (appended_at f b r))
        × IsLive disk (append_log_record r db).1 (written f (encode r).0) (b ++ (encode r).0)
        × SameTables db (append_log_record r db).1
  unfolding append_log_record
  append_log_record-IsLive db f b r live room =
      let bytes = (encode r).0 in
      let first : ensure_active db ≡ (ok f, db) = unfold ensure_active in rw live.active in
      let fits : rotate_if_full f (encode r).1 db ≡ (ok f, db) =
        unfold rotate_if_full in ground (arith, live.at_end, (encoded_size-length r).0) in
      let (quiet, live', tables) =
        sync_policy-Quiet (after_write db f bytes) (written f bytes) (written f bytes) (b ++ bytes)
          (encode r).1 (after_write-IsLive db f b bytes live) in
      rw (first, fits, write_active-live db f b bytes live, quiet)
        (
          ground (arith, live.at_end, (encoded_size-length r).0),
          live',
          record {
            options = tables.options;
            index = tables.index;
            older_files = tables.older_files;
            file_ids = tables.file_ids;
            seq_no = tables.seq_no;
            reclaim_size = tables.reclaim_size;
          },
        )

  sync_policy-other :
      (db : Db os) (g : DataFile) (size : ℕ) (q : FilePath)
      → disk.content (sync_policy g size db).1.disk q ≡ disk.content db.disk q
  unfolding sync_policy sync_file
  sync_policy-other db g size q = ground (arith, disk.flush-content db.disk g.path q)

  -- No file changes but the active one.
  pub append_log_record-other :
      (db : Db os) (f : DataFile) (b : Bytes) (r : LogRecord) (q : FilePath)
      → IsLive disk db f b
      → length b + length (encode r).0 ≤ db.options.data_file_size
      → q ≢ f.path
      → disk.content (append_log_record r db).1.disk q ≡ disk.content db.disk q
  unfolding append_log_record
  append_log_record-other db f b r q live room other =
      let bytes = (encode r).0 in
      let first : ensure_active db ≡ (ok f, db) = unfold ensure_active in rw live.active in
      let fits : rotate_if_full f (encode r).1 db ≡ (ok f, db) =
        unfold rotate_if_full in ground (arith, live.at_end, (encoded_size-length r).0) in
      let (quiet, live', tables) =
        sync_policy-Quiet (after_write db f bytes) (written f bytes) (written f bytes) (b ++ bytes)
          (encode r).1 (after_write-IsLive db f b bytes live) in
      rw (first, fits, write_active-live db f b bytes live, quiet)
        (sync_policy-other (after_write db f bytes) (written f bytes) (encode r).1 q
          ∙ write_other disk db.disk f b bytes live.opened live.holds q other)
