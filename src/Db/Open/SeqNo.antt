-- ===== src/Db/Open/SeqNo.antt =====
-- `load_seq_no` of src/db.cpp, which `init` calls for the B+ tree index. The flag that it sets beside
-- the number is never read.
use mathlib.Core.Option
use raft_bitcask.Prelude.{
  ℕ, ◌+◌, ◌≡◌, ◌≢◌, refl, sym, ap, ◌∙◌, Bool, true, Option, some, [], ◌∷◌, ◌++◌, length,
  length-append, drop, if◌then◌else◌, arith,
}
use raft_bitcask.Common.{Bytes, IsU64, Result, ok, throw}
use raft_bitcask.Exec.{Exec, ◌>>=◌}
use raft_bitcask.Codec.Record.{encode}
use raft_bitcask.Storage.FileSystem.{FilePath, Calls, Reliable, overwrite}
use raft_bitcask.Storage.DataFile.{DataFile, ReadLogRecord, read_log_record}
use raft_bitcask.Storage.DataFile
use raft_bitcask.Storage.DataFile.Reads.{read_log_record-encode}
use raft_bitcask.Storage.DataFile.Writes.{write-content}
use raft_bitcask.Db.{Db, open_data_file}
use raft_bitcask.Db.FileName.{decimal, get_data_file_name, length-get_data_file_name}
use raft_bitcask.Db.Close.{
  seq_no_file_name, seq_no_record, write_seq_no, open_named, open_seq_no_file,
}
use raft_bitcask.Db.Close.SeqNo.{seq_no_record-IsReadable}
use raft_bitcask.Db.Open.Restart.{is_some}

-- `seq_file_path`
abbrev pub seq_file_path : FilePath → FilePath
seq_file_path dir_path = dir_path ++ (b'/' ∷ seq_no_file_name)

-- The `try` block: what fails there leaves the number alone. `std::stoull` is a parameter; where it
-- throws, it is `none`.
abbrev parsed_seq_no : (Bytes → Option ℕ) → ℕ → Result ReadLogRecord → ℕ
parsed_seq_no stoull old (throw e) = old
parsed_seq_no stoull old (ok r) = Option.get_or (stoull r.log_record.value) old

-- `utils::file_exists` and `::remove` are parameters too.
module _ {os : Calls} (file_exists : os.Disk → FilePath → Bool)
    (remove_file : os.Disk → FilePath → os.Disk) (stoull : Bytes → Option ℕ) where
  -- The part behind `open_seq_no_file`.
  unfoldable pub read_seq_no : FilePath → DataFile → Exec (Db os) (Unit {0})
  read_seq_no path f s = (
    ok tt,
    record s {
      seq_no = parsed_seq_no stoull s.seq_no (read_log_record os s.disk f 0);
      disk = remove_file s.disk path;
    },
  )

  -- `DB::load_seq_no`
  unfoldable pub load_seq_no : Exec (Db os) (Unit {0})
  unfolding open_seq_no_file
  load_seq_no db =
      let path = seq_file_path db.options.dir_path in
      let loaded = (open_seq_no_file >>= λ f. read_seq_no path f) db in
      if file_exists db.disk path then loaded else (ok tt, db)

seq_differs : (dir_path : FilePath) → seq_file_path dir_path ≢ get_data_file_name dir_path 0
seq_differs dir_path e = omega (
  arith,
  ap (λ (t : FilePath). length t) e,
  length-append dir_path (b'/' ∷ seq_no_file_name),
  length-get_data_file_name dir_path 0,
)

-- On a disk that does not fail, where `std::stoull` reads back the decimal digits of 64-bit numbers:
-- the 64-bit sequence number that `close` writes from the start of the open file of the sequence
-- number on, whatever the file held before, is that of any database of the directory behind
-- `load_seq_no`, which returns.
pub load_seq_no-write_seq_no :
    {os : Calls} (disk : Reliable os) (file_exists : os.Disk → FilePath → Bool)
    (stat : (d : os.Disk) (p : FilePath) → file_exists d p ≡ is_some (disk.content d p))
    (remove_file : os.Disk → FilePath → os.Disk) (stoull : Bytes → Option ℕ)
    (digits : (n : ℕ) → IsU64 n → stoull (decimal n) ≡ some n) (closing opening : Db os)
    (f : DataFile) (b : Bytes)
    → IsU64 closing.seq_no
    → f.is_open ≡ true
    → f.write_off ≡ 0
    → f.path ≡ seq_file_path opening.options.dir_path
    → disk.content closing.disk f.path ≡ some b
    → opening.disk ≡ (write_seq_no f closing).1.disk
    → ((load_seq_no file_exists remove_file stoull opening).0 ≡ ok tt)
      × ((load_seq_no file_exists remove_file stoull opening).1.seq_no ≡ closing.seq_no)
unfolding write_seq_no load_seq_no read_seq_no open_seq_no_file open_named open_data_file
load_seq_no-write_seq_no {os} disk file_exists stat remove_file stoull digits closing opening f b
      fits opened front at_path has after =
    let dir = opening.options.dir_path in
    let path = seq_file_path dir in
    let path_0 = get_data_file_name dir 0 in
    let bytes = (encode (seq_no_record closing.seq_no)).0 in
    let (count, content) = write-content disk closing.disk f b bytes opened has in
    let kept = drop (0 + length bytes) b in
    let written_disk : opening.disk ≡ (DataFile.write os closing.disk f bytes).0 =
      after ∙ rw (write_seq_no, count) refl in
    let there : disk.content opening.disk path ≡ some (bytes ++ kept) =
      ap (λ (d : os.Disk). disk.content d path) written_disk
      ∙ ap (disk.content (DataFile.write os closing.disk f bytes).0) (sym at_path)
      ∙ content
      ∙ ap (λ (n : ℕ). some (overwrite n bytes b)) front in
    let d1 = (os.open_file opening.disk path_0).1 in
    let d2 = (os.open_file d1 path).1 in
    let still : disk.content d2 path ≡ some (bytes ++ kept) =
      disk.open-content d1 path
      ∙ ap (λ o. some (Option.get_or o []))
          (disk.open-other opening.disk path_0 path (seq_differs dir) ∙ there) in
    let seen : file_exists opening.disk path ≡ true = stat opening.disk path ∙ ap is_some there in
    let g : DataFile = record { file_id = 0; write_off = 0; path = path; is_open = true } in
    let read =
      read_log_record-encode disk d2 g (bytes ++ kept) refl still (seq_no_record closing.seq_no) []
        kept (seq_no_record-IsReadable closing.seq_no fits) refl in
    rw
      (
        load_seq_no,
        seen,
        disk.open-true opening.disk path_0,
        disk.open-true d1 path,
        read,
        digits closing.seq_no fits,
      )
      (refl, refl)
