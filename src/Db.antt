-- ===== src/Db.antt =====
-- src/db.cpp over one data directory, with the ordered index (`IndexType::BTREE`) and standard file
-- I/O. The methods that write hold the lock of the database from start to end, so each is one step.
pub mod FileName
pub mod Append
pub mod Represents
pub mod Load
pub mod Batch
pub mod Rotation
pub mod Iterator
pub mod Close
pub mod Open
pub mod Backup
pub mod Merge
use Prim.Native.Nat.{Ordering, compare}
use mathlib.Core.Option
use raft_bitcask.Prelude.{
  ℕ, ◌+◌, ◌%◌, ◌^◌, Bool, true, false, ◌&&◌, ◌||◌, Option, none, some, List, [], ◌∷◌, ltb, leb,
  ◌==◌, if◌then◌else◌,
}
use raft_bitcask.Common.{
  Bytes, Error, Result, ok, throw, key_empty, key_not_found, data_file_not_found,
  index_update_failed, bitcask_exception, normal, deleted, initial_file_id, non_transaction_seq_no,
}
use raft_bitcask.Exec.{Exec, pure, raise, go_on, ◌>>=◌}
use raft_bitcask.Codec.Record.{LogRecord, LogRecordPos, encode}
use raft_bitcask.Codec.SeqKey.{log_record_key_with_seq}
use raft_bitcask.Storage.FileSystem.{FilePath, Calls}
use raft_bitcask.Storage.DataFile.{DataFile, ReadLogRecord}
use raft_bitcask.Storage.DataFile
use raft_bitcask.Index.BTree
use raft_bitcask.Index.BTree.{BTreeIndex}
use raft_bitcask.Db.FileName.{get_data_file_name}

-- The options that the modelled operations read.
pub record Options : Type 0 where
  pub dir_path : FilePath
  pub data_file_size : ℕ
  pub sync_writes : Bool
  pub bytes_per_sync : ℕ

-- The fields of `DB`, and the disk that it works on.
pub record Db (os : Calls) : Type 0 where
  pub disk : os.Disk
  pub options : Options
  pub file_ids : List ℕ
  pub active_file : Option DataFile
  pub older_files : List (ℕ × DataFile)
  pub index : BTreeIndex
  pub seq_no : ℕ
  pub bytes_write : ℕ
  pub reclaim_size : ℕ

-- `older_files_`, a map from file ids.
unfoldable pub find_file : ℕ → List (ℕ × DataFile) → Option DataFile
find_file fid [] = none
find_file fid ((k, f) ∷ rest) = if k == fid then some f else find_file fid rest

unfoldable pub drop_file : ℕ → List (ℕ × DataFile) → List (ℕ × DataFile)
drop_file fid [] = []
drop_file fid ((k, f) ∷ rest) =
    let others = drop_file fid rest in if k == fid then others else (k, f) ∷ others

-- `older_files_[fid] = f`, in place of the file that stood there.
unfoldable pub add_file : ℕ → DataFile → List (ℕ × DataFile) → List (ℕ × DataFile)
unfolding drop_file
add_file fid f files = (fid, f) ∷ drop_file fid files

unfoldable pub has_id : ℕ → List ℕ → Bool
has_id fid [] = false
has_id fid (k ∷ rest) = k == fid || has_id fid rest

-- `push_back` and `sort` on a sorted list, if the id is not there.
unfoldable pub insert_sorted : ℕ → List ℕ → List ℕ
insert_sorted fid [] = fid ∷ []
insert_sorted fid (k ∷ rest) = if leb fid k then fid ∷ k ∷ rest else k ∷ insert_sorted fid rest

unfoldable pub add_id : ℕ → List ℕ → List ℕ
unfolding has_id insert_sorted
add_id fid ids = if has_id fid ids then ids else insert_sorted fid ids

-- The bytes of a position can be reclaimed, where there is one; `int64_t`, as its 64 bits.
unfoldable pub reclaim : Option LogRecordPos → ℕ → ℕ
reclaim none n = n
reclaim (some old) n = (n + old.size) % 2 ^ 64

-- The file of a position: the active one if it has the id, else an older one.
unfoldable pub file_of : Option DataFile → List (ℕ × DataFile) → ℕ → Option DataFile
unfolding find_file
file_of none older fid = find_file fid older
file_of (some f) older fid = if f.file_id == fid then some f else find_file fid older

module _ {os : Calls} where
  -- `DataFile::open_data_file` with `IOType::STANDARD_FIO`
  unfoldable pub open_data_file : ℕ → Exec (Db os) DataFile
  open_data_file fid db =
      let path = get_data_file_name db.options.dir_path fid in
      let (opened, disk') = os.open_file db.disk path in
      if opened
      then (
        ok (record { file_id = fid; write_off = 0; path = path; is_open = true }),
        record db { disk = disk' },
      )
      else (throw (bitcask_exception "Failed to open file"), record db { disk = disk' })

  -- `DB::set_active_data_file`
  unfoldable pub set_active_data_file : Exec (Db os) DataFile
  unfolding open_data_file
  set_active_data_file db =
      let fid : ℕ = elim db.active_file [
        | none ↦ initial_file_id
        | some f ↦ (f.file_id + 1) % 2 ^ 32
      ] in
      (open_data_file fid >>= λ f s. (ok f, record s { active_file = some f })) db

  -- `if (!active_file_) set_active_data_file();`
  unfoldable pub ensure_active : Exec (Db os) DataFile
  unfolding set_active_data_file
  ensure_active db = elim db.active_file [ none ↦ set_active_data_file db | some f ↦ (ok f, db) ]

  -- `active_file_->sync()`
  unfoldable pub sync_file : DataFile → Exec (Db os) (Unit {0})
  sync_file f db = (ok tt, if f.is_open then record db { disk = os.flush db.disk f.path } else db)

  -- The active file becomes an older file, and `active_file_` is empty after the move.
  unfoldable pub retire_active : DataFile → Exec (Db os) (Unit {0})
  unfolding add_file add_id
  retire_active f db = (
    ok tt,
    record db {
      older_files = add_file f.file_id f db.older_files;
      active_file = none;
      file_ids = add_id f.file_id db.file_ids;
    },
  )

  -- The change of files in `append_log_record_internal`, where the record would not fit.
  unfoldable pub rotate_if_full : DataFile → ℕ → Exec (Db os) DataFile
  unfolding sync_file retire_active set_active_data_file
  rotate_if_full f size db =
      if ltb db.options.data_file_size (f.write_off + size)
      then (sync_file f >>= λ _. retire_active f >>= λ _. set_active_data_file) db
      else (ok f, db)

  -- `active_file_->write(encoded_data)`
  unfoldable pub write_active : DataFile → Bytes → Exec (Db os) DataFile
  write_active f bytes db =
      let (disk', r) = DataFile.write os db.disk f bytes in
      elim r [
        | ok (f', n) ↦ (ok f', record db { disk = disk'; active_file = some f' })
        | throw e ↦ (throw e, record db { disk = disk' })
      ]

  -- `bytes_write_ += size` and the synchronisation behind a write.
  unfoldable pub sync_policy : DataFile → ℕ → Exec (Db os) (Unit {0})
  unfolding sync_file
  sync_policy f size db =
      let total = (db.bytes_write + size) % 2 ^ 64 in
      if db.options.sync_writes
        || (ltb 0 db.options.bytes_per_sync && leb db.options.bytes_per_sync total)
      then sync_file f (record db { bytes_write = 0 })
      else (ok tt, record db { bytes_write = total })

  -- `DB::append_log_record_internal`
  unfoldable pub append_log_record : LogRecord → Exec (Db os) LogRecordPos
  append_log_record r = do
    f ← ensure_active
    let (encoded_data, size) = encode r
    g ← rotate_if_full f size
    written ← write_active g encoded_data
    _ ← sync_policy written size
    pure (record { fid = g.file_id; offset = g.write_off; size = size % 2 ^ 32 })

  -- `index_->put(key, pos)` and the count of what it replaced.
  unfoldable pub index_put : Bytes → LogRecordPos → Exec (Db os) (Unit {0})
  index_put key pos db =
      let (old, index') = BTree.put db.index key pos in
      (ok tt, record db { index = index'; reclaim_size = reclaim old db.reclaim_size })

  -- `DB::put`
  unfoldable pub put : Bytes → Bytes → Exec (Db os) (Unit {0})
  put [] value = raise key_empty
  put (b ∷ bs) value =
      append_log_record (record {
        key = log_record_key_with_seq (b ∷ bs) non_transaction_seq_no;
        value = value;
        type = normal;
      })
      >>= λ pos. index_put (b ∷ bs) pos

  -- `DB::get_value_by_position`
  unfoldable pub value_in : Db os → Option DataFile → ℕ → Result Bytes
  value_in db none offset = throw data_file_not_found
  value_in db (some f) offset = elim (DataFile.read_log_record os db.disk f offset) [
    | throw e ↦ throw e
    | ok r ↦ if r.log_record.type == deleted then throw key_not_found else ok r.log_record.value
  ]

  unfoldable pub get_value_by_position : Db os → LogRecordPos → Result Bytes
  unfolding value_in file_of
  get_value_by_position db pos =
      value_in db (file_of db.active_file db.older_files pos.fid) pos.offset

  -- `DB::get`
  unfoldable pub get : Db os → Bytes → Result Bytes
  get db [] = throw key_empty
  get db (b ∷ bs) = elim (BTree.get db.index (b ∷ bs)) [
    | none ↦ throw key_not_found
    | some pos ↦ get_value_by_position db pos
  ]

  -- The change of the index in `DB::remove`, behind the record of the deletion.
  unfoldable pub index_remove : Bytes → LogRecordPos → Exec (Db os) (Unit {0})
  index_remove key del_pos db =
      let ((old, found), index') = BTree.remove db.index key in
      let counted = reclaim (some del_pos) db.reclaim_size in
      if found
      then (ok tt, record db { index = index'; reclaim_size = reclaim old counted })
      else (throw index_update_failed, record db { index = index'; reclaim_size = counted })

  -- `DB::remove`
  unfoldable pub remove : Bytes → Exec (Db os) (Unit {0})
  remove [] db = (throw key_empty, db)
  remove (b ∷ bs) db = elim (BTree.get db.index (b ∷ bs)) [
    | none ↦ (ok tt, db)
    | some pos ↦
        (append_log_record (record {
          key = log_record_key_with_seq (b ∷ bs) non_transaction_seq_no;
          value = [];
          type = deleted;
        })
            >>= λ del_pos. index_remove (b ∷ bs) del_pos)
          db
  ]

  -- `DB::list_keys`
  unfoldable pub list_keys : Db os → List Bytes
  list_keys db = BTree.list_keys db.index

  -- `DB::sync`
  pub sync : Exec (Db os) (Unit {0})
  unfolding sync_file
  sync db = elim db.active_file [ none ↦ (ok tt, db) | some f ↦ sync_file f db ]
