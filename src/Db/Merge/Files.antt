-- ===== src/Db/Merge/Files.antt =====
-- The files around a merge in src/db.cpp: `rotate_merge_files`, `get_merge_path` and
-- `load_merge_files`.
use raft_bitcask.Prelude.{
  ℕ, ◌≡◌, ◌≢◌, refl, sym, ap, ◌∙◌, Bool, true, Option, none, some, List, [], ◌∷◌, ◌++◌, map, length,
  drop, drop-append_self, ◌==◌, if◌then◌else◌, arith, Option-cases, Bool-cases, inl, inr, get_or,
}
use raft_bitcask.Common.{Result, ok, throw}
use raft_bitcask.Exec.{Exec, pure, ◌>>=◌}
use raft_bitcask.Storage.FileSystem.{FilePath, Calls, Reliable}
use raft_bitcask.Storage.DataFile.{DataFile}
use raft_bitcask.Db.{Db, open_data_file, set_active_data_file, add_file, add_id, insert_sorted}
use raft_bitcask.Db.FileName.{get_data_file_name}
use raft_bitcask.Db.Close.{merge_finished_file_name}

-- The text in front of the last separator and behind it, by `find_last_of('/')`.
unfoldable around_last_sep : FilePath → Option (FilePath × FilePath)
around_last_sep [] = none
around_last_sep (c ∷ rest) = elim (around_last_sep rest) [
  | some (front, back) ↦ some (c ∷ front, back)
  | none ↦ if c == b'/' then some ([], rest) else none
]

-- `MERGE_DIR_SUFFIX`
abbrev merge_dir_suffix : FilePath
merge_dir_suffix = b'-' ∷ b'm' ∷ b'e' ∷ b'r' ∷ b'g' ∷ b'e' ∷ []

-- `DB::get_merge_path`, the directory in which `merge` works.
unfoldable pub get_merge_path : FilePath → FilePath
unfolding around_last_sep
get_merge_path dir_path = elim (around_last_sep dir_path) [
  | none ↦ dir_path ++ merge_dir_suffix
  | some (parent_path, dir_name) ↦ (parent_path ++ (b'/' ∷ dir_name)) ++ merge_dir_suffix
]

-- `merge_dir` of `load_merge_files`
abbrev pub merge_dir : FilePath → FilePath
merge_dir dir_path = dir_path ++ (b'/' ∷ b'm' ∷ b'e' ∷ b'r' ∷ b'g' ∷ b'e' ∷ [])

-- The functions of `utils` over the file system are parameters.
module _ {os : Calls} (directory_exists file_exists : os.Disk → FilePath → Bool)
    (copy_directory : os.Disk → FilePath → FilePath → List FilePath → Result (Unit {0}) × os.Disk)
    (remove_directory : os.Disk → FilePath → Result (Unit {0}) × os.Disk) where
  -- The copy of the directory, and its removal.
  unfoldable pub move_directory : FilePath → Exec (Db os) (Unit {0})
  move_directory from db =
      let (copied, disk') =
        copy_directory db.disk from db.options.dir_path (merge_finished_file_name ∷ []) in
      let (removed, disk'') = remove_directory disk' from in
      elim copied [
        | throw e ↦ (throw e, record db { disk = disk' })
        | ok _ ↦ (removed, record db { disk = disk'' })
      ]

  -- `DB::load_merge_files`
  unfoldable pub load_merge_files : Exec (Db os) (Unit {0})
  unfolding move_directory
  load_merge_files db =
      let from = merge_dir db.options.dir_path in
      if directory_exists db.disk from
      then if file_exists db.disk (from ++ (b'/' ∷ merge_finished_file_name))
        then move_directory from db
        else (ok tt, db)
      else (ok tt, db)

-- The keys of the map of older files, sorted.
unfoldable pub older_ids : List (ℕ × DataFile) → List ℕ
older_ids [] = []
older_ids ((fid, f) ∷ rest) = add_id fid (older_ids rest)

module _ {os : Calls} where
  -- `open_data_file` for each id
  unfoldable pub open_all : List ℕ → Exec (Db os) (List DataFile)
  unfolding open_data_file
  open_all [] = pure []
  open_all (fid ∷ rest) = open_data_file fid >>= λ f. open_all rest >>= λ fs. pure (f ∷ fs)

  -- `DB::rotate_merge_files`
  unfoldable pub rotate_merge_files : Exec (Db os) (List DataFile)
  unfolding older_ids open_all add_file set_active_data_file
  rotate_merge_files db =
      let ids = older_ids db.older_files in
      elim db.active_file [
        | none ↦ open_all ids db
        | some f ↦
            (set_active_data_file >>= λ _. open_all (insert_sorted f.file_id ids))
              (record db { older_files = add_file f.file_id f db.older_files; active_file = none })
      ]

-- The two texts with a separator between them, or else the whole.
abbrev rejoin : FilePath → Option (FilePath × FilePath) → FilePath
rejoin p none = p
rejoin p (some (front, back)) = front ++ (b'/' ∷ back)

is_sep : (c : ℕ) → (c == b'/') ≡ true → c ≡ b'/'
is_sep c e = ground arith

rejoin-around_last_sep : (p : FilePath) → rejoin p (around_last_sep p) ≡ p
unfolding around_last_sep
rejoin-around_last_sep [] = refl
rejoin-around_last_sep (c ∷ rest) = elim (Option-cases (around_last_sep rest)) [
  | inr ((front, back), later) ↦
      rw (around_last_sep, later)
        (ap (λ (t : FilePath). c ∷ t) (rw later at (rejoin-around_last_sep rest)))
  | inl none_later ↦ elim (Bool-cases (c == b'/')) [
    | inl e ↦ rw (around_last_sep, none_later, e) (ap (λ (k : ℕ). k ∷ rest) (sym (is_sep c e)))
    | inr e ↦ rw (around_last_sep, none_later, e) refl
  ]
]

-- What `get_merge_path` gives is the path of the directory and the suffix.
get_merge_path-suffix :
    (dir_path : FilePath) → get_merge_path dir_path ≡ dir_path ++ merge_dir_suffix
unfolding get_merge_path
get_merge_path-suffix dir_path = elim (Option-cases (around_last_sep dir_path)) [
  | inl e ↦ rw (get_merge_path, e) refl
  | inr ((front, back), e) ↦
      rw (get_merge_path, e)
        (ap (λ (p : FilePath). p ++ merge_dir_suffix) (rw e at (rejoin-around_last_sep dir_path)))
]

-- The directory in which `merge` works is never the one in which a start looks for a finished merge.
get_merge_path-merge_dir : (dir_path : FilePath) → get_merge_path dir_path ≢ merge_dir dir_path
get_merge_path-merge_dir dir_path e =
    let same = sym (get_merge_path-suffix dir_path) ∙ e in
    let ends : merge_dir_suffix ≡ b'/' ∷ b'm' ∷ b'e' ∷ b'r' ∷ b'g' ∷ b'e' ∷ [] =
      sym (drop-append_self dir_path merge_dir_suffix)
      ∙ ap (λ (p : FilePath). drop (length dir_path) p) same
      ∙ drop-append_self dir_path _ in
    omega (arith, ap (λ (p : FilePath). get_or p 0 0) ends)

-- A file of the directory as it is opened.
abbrev pub opened : FilePath → ℕ → DataFile
opened dir_path fid = record {
  file_id = fid;
  write_off = 0;
  path = get_data_file_name dir_path fid;
  is_open = true;
}

module _ {os : Calls} (disk : Reliable os) where
  open_all-map :
      (ids : List ℕ) (db : Db os)
      → (d : os.Disk) × (open_all ids db
          ≡ (ok (map (opened db.options.dir_path) ids), record db { disk = d }))
  unfolding open_all open_data_file
  open_all-map [] db = (db.disk, refl)
  open_all-map (fid ∷ rest) db =
      let path = get_data_file_name db.options.dir_path fid in
      let (d, e) = open_all-map rest (record db { disk = (os.open_file db.disk path).1 }) in
      (d, rw (open_all, disk.open-true db.disk path, e) refl)

  -- On a disk that does not fail, `rotate_merge_files` of a database with an active file returns the
  -- older files and the active one, opened at their start in the order of their ids, and makes file
  -- 0, at its start, the active file, also where it is one of them.
  pub rotate_merge_files-active :
      (db : Db os) (f : DataFile)
      → db.active_file ≡ some f
      → ((rotate_merge_files db).0
          ≡ ok (
              map
                (opened db.options.dir_path)
                (insert_sorted f.file_id (older_ids db.older_files))))
        × ((rotate_merge_files db).1.active_file ≡ some (opened db.options.dir_path 0))
  unfolding rotate_merge_files set_active_data_file open_data_file
  rotate_merge_files-active db f active =
      let dir = db.options.dir_path in
      let (d, e) = open_all-map (insert_sorted f.file_id (older_ids db.older_files)) (record db {
        disk = (os.open_file db.disk (get_data_file_name dir 0)).1;
        older_files = add_file f.file_id f db.older_files;
        active_file = some (opened dir 0);
      }) in
      rw (rotate_merge_files, active, disk.open-true db.disk (get_data_file_name dir 0), e)
        (refl, refl)
