-- ===== src/Db/Backup.antt =====
-- `DB::backup` of src/db.cpp, with the ordered index. The functions of src/utils.cpp on files and
-- directories are parameters, and messages are without the path.
pub mod Copies
use raft_bitcask.Prelude.{
  ℕ, ◌≡◌, ◌≢◌, refl, sym, ap, ◌∙◌, Bool, true, false, not, ◌&&◌, ◌||◌, Option, none, some, List, [],
  ◌∷◌, ◌++◌, ◌==◌, if◌then◌else◌, length, length-append, arith,
}
use raft_bitcask.Common.{Bytes, Result, ok, throw, bitcask_exception}
use raft_bitcask.Exec.{Exec, pure, ◌>>=◌, go_on}
use raft_bitcask.Storage.FileSystem.{FilePath, Calls, Reliable}
use raft_bitcask.Storage.DataFile.{DataFile}
use raft_bitcask.Db.{Db, sync_file, add_id}
use raft_bitcask.Db.FileName.{get_data_file_name}
use raft_bitcask.Db.Close.{hint_file_name, seq_no_file_name, sync_files}
use raft_bitcask.Db.Open.{is_empty}

-- Where an error is caught and ignored.
abbrev pub was_copied : Result Bool → Bool
was_copied (ok b) = b
was_copied (throw e) = false

abbrev pub copied_by : {Disk : Type 0} → Result (Unit {0}) × Disk → Result Bool × Disk
copied_by (ok _, d) = (ok true, d)
copied_by (throw e, d) = (throw e, d)

-- The active file's id is put into `file_ids_`.
unfoldable pub list_active : {os : Calls} → Db os → Db os
unfolding add_id
list_active db = elim db.active_file [
  | none ↦ db
  | some f ↦ record db { file_ids = add_id f.file_id db.file_ids }
]

-- The active file and the older ones to disk.
unfoldable pub sync_all : {os : Calls} → Db os → Db os
unfolding sync_file sync_files
sync_all {os} db =
    let synced : Db os = elim db.active_file [ none ↦ db | some f ↦ (sync_file f db).1 ] in
    (sync_files db.older_files synced).1

module _ {Disk : Type 0} (file_exists : Disk → FilePath → Bool)
    (copy_file : Disk → FilePath → FilePath → Result (Unit {0}) × Disk) where
  -- `if (file_exists(src)) copy_file(src, dst)`, and whether it was copied.
  unfoldable pub copy_if_there : FilePath → FilePath → Disk → Result Bool × Disk
  copy_if_there from to d =
      let copied = copied_by (copy_file d from to) in
      if file_exists d from then copied else (ok false, d)

  -- The loop over `file_ids_`, with the flag `any_file_copied`.
  unfoldable pub copy_older :
      FilePath → FilePath → Option DataFile → List ℕ → Bool → Disk → Bool × Disk
  unfolding copy_if_there
  copy_older from to active [] any d = (any, d)
  copy_older from to active (fid ∷ rest) any d =
      let (r, d') = copy_if_there (get_data_file_name from fid) (get_data_file_name to fid) d in
      let skipped = copy_older from to active rest any d in
      let tried = copy_older from to active rest (any || was_copied r) d' in
      elim active [ none ↦ tried | some f ↦ if fid == f.file_id then skipped else tried ]

  -- The active file, whose copy must not fail.
  unfoldable pub copy_active : FilePath → FilePath → Option DataFile → Disk → Result Bool × Disk
  unfolding copy_if_there
  copy_active from to none d = (ok false, d)
  copy_active from to (some f) d =
      let (r, d') =
        copy_if_there (get_data_file_name from f.file_id) (get_data_file_name to f.file_id) d in
      elim r [
        | ok b ↦ (ok b, d')
        | throw e ↦ (throw (bitcask_exception "Failed to backup active data file"), d')
      ]

  -- The hint file and the file of the sequence number.
  unfoldable pub copy_aux : FilePath → FilePath → Disk → Disk
  unfolding copy_if_there
  copy_aux from to d =
      let d' =
        (copy_if_there (from ++ (b'/' ∷ hint_file_name)) (to ++ (b'/' ∷ hint_file_name)) d).1 in
      (copy_if_there (from ++ (b'/' ∷ seq_no_file_name)) (to ++ (b'/' ∷ seq_no_file_name)) d').1

module _ {os : Calls} (create_directory : os.Disk → FilePath → Result (Unit {0}) × os.Disk)
    (file_exists : os.Disk → FilePath → Bool)
    (copy_file : os.Disk → FilePath → FilePath → Result (Unit {0}) × os.Disk) where
  -- Behind the copies of the data files.
  abbrev pub finish_backup : FilePath → Db os → Bool × os.Disk → Result (Unit {0}) × Db os
  finish_backup to db (true, d) =
      (ok tt, record db { disk = copy_aux file_exists copy_file db.options.dir_path to d })
  finish_backup to db (false, d) =
      (throw (bitcask_exception "No data files were copied during backup"), record db { disk = d })

  abbrev pub copy_rest : FilePath → Db os → Result Bool × os.Disk → Result (Unit {0}) × Db os
  copy_rest to db (throw e, d) = (throw e, record db { disk = d })
  copy_rest to db (ok any, d) =
      finish_backup to db
        (copy_older file_exists copy_file db.options.dir_path to db.active_file db.file_ids any d)

  -- The files to disk, and then their copies.
  unfoldable pub copy_files : FilePath → Exec (Db os) (Unit {0})
  unfolding sync_all copy_active copy_older copy_aux
  copy_files to db =
      let synced = sync_all db in
      copy_rest to synced
        (copy_active file_exists copy_file db.options.dir_path to db.active_file synced.disk)

  -- `DB::backup`
  unfoldable pub backup : FilePath → Exec (Db os) (Unit {0})
  unfolding copy_files list_active
  backup to db =
      let (created, d) = create_directory db.disk to in
      let listed = list_active (record db { disk = d }) in
      let done = copy_files to listed in
      elim created [
        | throw e ↦
            (throw (bitcask_exception "Failed to create backup directory"), record db { disk = d })
        | ok _ ↦ elim listed.active_file [
          | some f ↦ done
          | none ↦ if is_empty listed.file_ids then (ok tt, listed) else done
        ]
      ]
