-- ===== src/Db/Rotation.antt =====
-- The change of files in `append_log_record_internal`, where the record does not fit the active file.
use mathlib.Core.Option
use raft_bitcask.Prelude.{
  ℕ, ◌+◌, ◌%◌, ◌^◌, ◌<◌, ◌≡◌, refl, ap, ◌∙◌, Bool, true, false, some, [], length, ltb,
  if◌then◌else◌, arith, Bool-cases, inl, inr,
}
use raft_bitcask.Common.{Bytes, Result, ok}
use raft_bitcask.Codec.Record.{LogRecord, encode}
use raft_bitcask.Codec.Record.Size.{encoded_size-length}
use raft_bitcask.Storage.FileSystem.{FilePath, Calls, Reliable, overwrite}
use raft_bitcask.Storage.DataFile.{DataFile}
use raft_bitcask.Storage.DataFile
use raft_bitcask.Storage.DataFile.Writes.{write-content}
use raft_bitcask.Db.FileName.{get_data_file_name}
use raft_bitcask.Db.Append.{IsLive, written}
use raft_bitcask.Db.{
  Db, ensure_active, rotate_if_full, retire_active, set_active_data_file, open_data_file,
  write_active, sync_policy, sync_file, append_log_record, add_file, add_id,
}

module _ {os : Calls} (disk : Reliable os) where
  -- A step that returns and leaves the content of the files as it is.
  abbrev Settles : Db os → Result (Unit {0}) × Db os → Type 0
  Settles db out =
      (out.0 ≡ ok tt) × ((q : FilePath) → disk.content out.1.disk q ≡ disk.content db.disk q)

  sync_file-Settles :
      (db : Db os) (n : ℕ) (f : DataFile) → Settles db (sync_file f (record db { bytes_write = n }))
  unfolding sync_file
  sync_file-Settles db n f = elim (Bool-cases f.is_open) [
    | inl e ↦ rw e (refl, λ q. disk.flush-content db.disk f.path q)
    | inr e ↦ rw e (refl, λ q. refl)
  ]

  Settles-if :
      (db : Db os) (t : Bool) (x y : Result (Unit {0}) × Db os)
      → Settles db x
      → Settles db y
      → Settles db (if t then x else y)
  Settles-if db true x y hx hy = hx
  Settles-if db false x y hx hy = hy

  sync_policy-Settles : (db : Db os) (f : DataFile) (size : ℕ) → Settles db (sync_policy f size db)
  unfolding sync_policy
  sync_policy-Settles db f size = Settles-if db _ _ _ (sync_file-Settles db 0 f) (refl, λ q. refl)

  abbrev file_0 : Db os → DataFile
  file_0 db = record {
    file_id = 0;
    write_off = 0;
    path = get_data_file_name db.options.dir_path 0;
    is_open = true;
  }

  -- The database behind the change of files.
  abbrev changed : Db os → DataFile → Db os
  changed db f = record db {
    disk = (os.open_file (os.flush db.disk f.path) (get_data_file_name db.options.dir_path 0)).1;
    older_files = add_file f.file_id f db.older_files;
    file_ids = add_id f.file_id db.file_ids;
    active_file = some (file_0 db);
  }

  rotate_if_full-changed :
      (db : Db os) (f : DataFile) (size : ℕ)
      → f.is_open ≡ true
      → db.options.data_file_size < f.write_off + size
      → rotate_if_full f size db ≡ (ok (file_0 db), changed db f)
  unfolding rotate_if_full sync_file retire_active set_active_data_file open_data_file
  rotate_if_full-changed db f size opened full =
      let over : ltb db.options.data_file_size (f.write_off + size) ≡ true = ground arith in
      let opens =
        disk.open-true (os.flush db.disk f.path) (get_data_file_name db.options.dir_path 0) in
      rw (over, opened, opens) refl

  -- On a disk that does not fail, where a record does not fit the active file, whatever id this file
  -- has, the write goes to the start of file 0: the record's position is offset 0 there, and its bytes
  -- stand over the first bytes that file 0 had.
  pub rotation_overwrites :
      (db : Db os) (f : DataFile) (b b₀ : Bytes) (r : LogRecord)
      → IsLive disk db f b
      → db.options.data_file_size < length b + length (encode r).0
      → disk.content db.disk (get_data_file_name db.options.dir_path 0) ≡ some b₀
      → ((append_log_record r db).0
          ≡ ok (record { fid = 0; offset = 0; size = length (encode r).0 % 2 ^ 32 }))
        × (disk.content (append_log_record r db).1.disk (get_data_file_name db.options.dir_path 0)
            ≡ some (overwrite 0 (encode r).0 b₀))
  unfolding append_log_record ensure_active write_active DataFile.write
  rotation_overwrites db f b b₀ r live full has =
      let bytes = (encode r).0 in
      let name = get_data_file_name db.options.dir_path 0 in
      let size : (encode r).1 ≡ length bytes = (encoded_size-length r).0 in
      let first : ensure_active db ≡ (ok f, db) = rw live.active in
      let rotated : rotate_if_full f (encode r).1 db ≡ (ok (file_0 db), changed db f) =
        rotate_if_full-changed db f (encode r).1 live.opened (omega (arith, size, live.at_end)) in
      let kept : disk.content (changed db f).disk name ≡ some b₀ =
        disk.open-content (os.flush db.disk f.path) name
        ∙ ap (λ o. some (Option.get_or o [])) (disk.flush-content db.disk f.path name ∙ has) in
      let (count, content) =
        write-content disk (changed db f).disk (file_0 db) b₀ bytes refl kept in
      let (settled, same) =
        sync_policy-Settles
          (record (changed db f) {
            disk = (DataFile.write os (changed db f).disk (file_0 db) bytes).0;
            active_file = some (written disk (file_0 db) bytes);
          })
          (written disk (file_0 db) bytes) (encode r).1 in
      rw (first, rotated, count, settled) (rw size refl, same name ∙ content)
