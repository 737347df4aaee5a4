-- ===== src/Db/Close.antt =====
-- `DB::close` of src/db.cpp, and the openers of auxiliary files in src/data_file.cpp that it uses. The
-- lock on the directory is not modelled.
pub mod SeqNo
use raft_bitcask.Prelude.{ℕ, true, false, Option, none, some, List, [], ◌∷◌, ◌++◌, if◌then◌else◌}
use raft_bitcask.Common.{Bytes, Result, ok, throw, bitcask_exception, normal}
use raft_bitcask.Exec.{Exec, pure, ◌>>=◌, go_on}
use raft_bitcask.Codec.Record.{LogRecord, encode}
use raft_bitcask.Storage.FileSystem.{FilePath, Calls}
use raft_bitcask.Storage.DataFile.{DataFile}
use raft_bitcask.Storage.DataFile
use raft_bitcask.Index.BTree
use raft_bitcask.Db.{Db, open_data_file, sync_file, sync, add_id}
use raft_bitcask.Db.FileName.{decimal}

abbrev pub hint_file_name : FilePath
hint_file_name = b'h' ∷ b'i' ∷ b'n' ∷ b't' ∷ b'-' ∷ b'i' ∷ b'n' ∷ b'd' ∷ b'e' ∷ b'x' ∷ []

abbrev pub seq_no_file_name : FilePath
seq_no_file_name = b's' ∷ b'e' ∷ b'q' ∷ b'-' ∷ b'n' ∷ b'o' ∷ []

abbrev pub merge_finished_file_name : FilePath
merge_finished_file_name =
    b'm' ∷ b'e' ∷ b'r' ∷ b'g' ∷ b'e' ∷ b'-' ∷ b'f' ∷ b'i' ∷ b'n' ∷ b'i' ∷ b's' ∷ b'h' ∷ b'e' ∷ b'd'
    ∷ []

-- `SEQ_NO_KEY`
abbrev pub seq_no_key : Bytes
seq_no_key = b's' ∷ b'e' ∷ b'q' ∷ b'.' ∷ b'n' ∷ b'o' ∷ []

-- The record in the file of the sequence number.
abbrev pub seq_no_record : ℕ → LogRecord
seq_no_record seq_no = record { key = seq_no_key; value = decimal seq_no; type = normal }

-- `DataFile::close`
unfoldable pub close_file : DataFile → DataFile
close_file f = record f { is_open = false }

unfoldable pub close_files : List (ℕ × DataFile) → List (ℕ × DataFile)
unfolding close_file
close_files [] = []
close_files ((fid, f) ∷ rest) = (fid, close_file f) ∷ close_files rest

module _ {os : Calls} where
  -- What the three openers have in common: data file 0 is opened first, and then the file of the name
  -- takes its place.
  unfoldable pub open_named : FilePath → Exec (Db os) DataFile
  unfolding open_data_file
  open_named name db =
      (open_data_file 0 >>= λ f s.
      let path = s.options.dir_path ++ (b'/' ∷ name) in
      let (opened, disk') = os.open_file s.disk path in
      if opened
      then (ok (record f { path = path }), record s { disk = disk' })
      else (throw (bitcask_exception "Failed to open file"), record s { disk = disk' }))
        db

  -- `DataFile::open_hint_file`
  unfoldable pub open_hint_file : Exec (Db os) DataFile
  unfolding open_named
  open_hint_file = open_named hint_file_name

  -- `DataFile::open_merge_finished_file`
  unfoldable pub open_merge_finished_file : Exec (Db os) DataFile
  unfolding open_named
  open_merge_finished_file = open_named merge_finished_file_name

  -- `DataFile::open_seq_no_file`
  unfoldable pub open_seq_no_file : Exec (Db os) DataFile
  unfolding open_named
  open_seq_no_file = open_named seq_no_file_name

  unfoldable pub sync_files : List (ℕ × DataFile) → Exec (Db os) (Unit {0})
  unfolding sync_file
  sync_files [] = pure tt
  sync_files ((fid, f) ∷ rest) = sync_file f >>= λ _. sync_files rest

  -- `seq_no_file->write(encoded_data)`
  unfoldable pub write_seq_no : DataFile → Exec (Db os) DataFile
  write_seq_no f db =
      let (disk', r) = DataFile.write os db.disk f (encode (seq_no_record db.seq_no)).0 in
      elim r [
        | ok (f', n) ↦ (ok f', record db { disk = disk' })
        | throw e ↦ (throw e, record db { disk = disk' })
      ]

  -- The end of `close`: the index, the id of the active file, and the files.
  unfoldable pub close_tables : Exec (Db os) (Unit {0})
  unfolding close_file close_files add_id
  close_tables db = (
    ok tt,
    record db {
      index = BTree.close db.index;
      file_ids = elim db.active_file [ none ↦ db.file_ids | some f ↦ add_id f.file_id db.file_ids ];
      active_file = elim db.active_file [ none ↦ none | some f ↦ some (close_file f) ];
      older_files = close_files db.older_files;
    },
  )

  -- `DB::close`
  unfoldable pub close : Exec (Db os) (Unit {0})
  unfolding sync sync_files open_seq_no_file write_seq_no close_tables
  close db =
      (sync >>= λ _. sync_files db.older_files >>= λ _.
      open_seq_no_file >>= λ f. write_seq_no f >>= λ g. sync_file g >>= λ _. close_tables)
        db
