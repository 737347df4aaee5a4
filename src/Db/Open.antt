-- ===== src/Db/Open.antt =====
-- `DB::init` of src/db.cpp with the ordered index: the search for data files in the directory, the
-- hint file, and the index rebuilt. The lock on the directory is not modelled; `load_merge_files` is
-- in Db/Merge/Files.antt.
pub mod Scan
pub mod Restart
pub mod SeqNo
pub mod HintFuel
use raft_bitcask.Prelude.{
  ℕ, zero, suc, ◌+◌, Bool, true, false, not, ◌&&◌, Option, none, some, List, [], ◌∷◌, ◌++◌, leb,
  if◌then◌else◌,
}
use raft_bitcask.Common.{Bytes, Result, ok, throw, read_data_file_eof}
use raft_bitcask.Exec.{Exec, pure, ◌>>=◌, go_on}
use raft_bitcask.Codec.Record.{LogRecordPos, decode_pos}
use raft_bitcask.Storage.FileSystem.{FilePath, Calls}
use raft_bitcask.Storage.DataFile.{DataFile, ReadLogRecord, read_log_record}
use raft_bitcask.Index.BTree
use raft_bitcask.Index.BTree.{BTreeIndex, new_index}
use raft_bitcask.Db.{Db, Options, open_data_file, set_active_data_file, add_file}
use raft_bitcask.Db.FileName.{get_data_file_name}
use raft_bitcask.Db.Load.{load_index}
use raft_bitcask.Db.Close.{merge_finished_file_name, hint_file_name, open_hint_file, close_file}

-- `MAX_CONSECUTIVE_MISSING` and `MAX_SCAN_FILES`
abbrev pub max_consecutive_missing : ℕ
max_consecutive_missing = 5

abbrev pub max_scan_files : ℕ
max_scan_files = 1000

abbrev pub is_empty : List ℕ → Bool
is_empty [] = true
is_empty (fid ∷ rest) = false

-- The loop over `fid`, for the rounds that are left; it finds the ids in ascending order.
unfoldable pub scan : (ℕ → Bool) → ℕ → ℕ → ℕ → List ℕ → List ℕ
scan exists zero fid missing ids = ids
scan exists (suc n) fid missing ids =
    let found = scan exists n (fid + 1) 0 (ids ++ (fid ∷ [])) in
    let not_found = scan exists n (fid + 1) (missing + 1) ids in
    if exists fid
    then found
    else if not (is_empty ids) && leb max_consecutive_missing (missing + 1)
    then ids
    else not_found

unfoldable pub scan_files : (ℕ → Bool) → List ℕ
scan_files exists = scan exists max_scan_files 0 0 []

-- The database before `init`.
abbrev pub blank : {os : Calls} → os.Disk → Options → Db os
blank disk options = record {
  disk = disk;
  options = options;
  file_ids = [];
  active_file = none;
  older_files = [];
  index = new_index;
  seq_no = 0;
  bytes_write = 0;
  reclaim_size = 0;
}

module _ {os : Calls} where
  -- The loop that opens the files: the last one becomes the active file.
  unfoldable pub open_files : List ℕ → Exec (Db os) (Unit {0})
  open_files [] db = (ok tt, db)
  open_files (fid ∷ []) db =
      (open_data_file fid >>= λ f s. (ok tt, record s { active_file = some f })) db
  open_files (fid ∷ (next ∷ rest)) db =
      (open_data_file fid >>= λ f s.
      open_files (next ∷ rest) (record s { older_files = add_file fid f s.older_files }))
        db

module _ (os : Calls) where
  -- The loop of `load_index_from_hint_file`; each round but the last moves the offset on.
  unfoldable pub hint_loop : ℕ → os.Disk → DataFile → ℕ → BTreeIndex → Option (Result BTreeIndex)
  hint_loop zero d f offset index = none
  hint_loop (suc fuel) d f offset index = elim (read_log_record os d f offset) [
    | throw read_data_file_eof ↦ some (ok index)
    | throw e ↦ some (throw e)
    | ok r ↦ elim (decode_pos r.log_record.value) [
      | throw read_data_file_eof ↦ some (ok index)
      | throw e ↦ some (throw e)
      | ok pos ↦ hint_loop fuel d f (offset + r.size) (BTree.put index r.log_record.key pos).1
    ]
  ]

-- `utils::file_exists` is a parameter, since it asks the operating system.
module _ {os : Calls} (file_exists : os.Disk → FilePath → Bool) where
  -- `load_data_files`, with the flag `is_initial_`.
  unfoldable pub load_data_files : Bool → Exec (Db os) (Unit {0})
  load_data_files is_initial db =
      let ids =
        scan_files (λ fid. file_exists db.disk (get_data_file_name db.options.dir_path fid)) in
      let listed = record db { file_ids = ids } in
      let created = (set_active_data_file >>= λ f. pure tt) listed in
      elim ids [
        | [] ↦ if is_initial then created else (ok tt, listed)
        | fid ∷ rest ↦ open_files (fid ∷ rest) listed
      ]

  abbrev put_index : Db os → DataFile → Option (Result BTreeIndex) → Option (Result (Db os))
  put_index db f none = none
  put_index db f (some (throw e)) = some (throw e)
  put_index db f (some (ok index)) = some (ok (record db { index = index }))

  -- `load_index_from_hint_file`
  unfoldable pub load_index_from_hint_file : ℕ → Db os → Option (Result (Db os))
  load_index_from_hint_file fuel db =
      let (r, s) = open_hint_file db in
      let loaded : Option (Result (Db os)) = elim r [
        | throw e ↦ some (throw e)
        | ok f ↦ put_index s f (hint_loop os fuel s.disk f 0 s.index)
      ] in
      if file_exists db.disk (db.options.dir_path ++ (b'/' ∷ hint_file_name))
      then loaded
      else some (ok db)

-- `::remove` is a parameter too.
module _ {os : Calls} (file_exists : os.Disk → FilePath → Bool)
    (remove_file : os.Disk → FilePath → os.Disk) where
  -- In `load_index_from_data_files`: the mark of a finished merge is removed.
  unfoldable pub forget_merge : Db os → Db os
  forget_merge db =
      let merge_fin_file = db.options.dir_path ++ (b'/' ∷ merge_finished_file_name) in
      if file_exists db.disk merge_fin_file
      then record db { disk = remove_file db.disk merge_fin_file }
      else db

  abbrev then_load : ℕ → Option (Result (Db os)) → Option (Result (Db os))
  then_load fuel none = none
  then_load fuel (some (throw e)) = some (throw e)
  then_load fuel (some (ok db)) = load_index os fuel (forget_merge db)

  -- `has_data_files`
  abbrev pub has_data_files : Db os → Bool
  has_data_files db = elim db.active_file [ none ↦ not (is_empty db.file_ids) | some f ↦ true ]

  -- The part of `init` behind `load_data_files`.
  abbrev pub with_files : ℕ → Result (Unit {0}) × Db os → Option (Result (Db os))
  with_files fuel (throw e, db) = some (throw e)
  with_files fuel (ok _, db) =
      let loaded = then_load fuel (load_index_from_hint_file file_exists fuel db) in
      if has_data_files db then loaded else some (ok db)

  -- `init`, from `load_data_files` on.
  unfoldable pub init : ℕ → Bool → Db os → Option (Result (Db os))
  init fuel is_initial db = with_files fuel (load_data_files file_exists is_initial db)
