-- ===== src/Db/Open/Restart.antt =====
-- `init` of src/db.cpp in a directory with one data file that a database left behind.
use mathlib.Core.Option
use raft_bitcask.Prelude.{
  get_or, ◌+◌, drop, drop-append, drop-append_self, Bool-cases, inl, inr, ℕ, zero, suc, ◌<◌, ◌≡◌,
  ◌≢◌, refl, sym, ap, ◌∙◌, Bool, true, false, Option, none, some, List, [], ◌∷◌, ◌++◌, length,
  length-append, All, arith,
}
use raft_bitcask.Common.{Bytes, ok}
use raft_bitcask.Codec.Record.{LogRecord}
use raft_bitcask.Storage.FileSystem.{FilePath, Calls, Reliable}
use raft_bitcask.Storage.DataFile.{DataFile}
use raft_bitcask.Db.{Db, Options, open_data_file, has_id, file_of}
use raft_bitcask.Storage.DataFile.Reads.{IsReadable}
use raft_bitcask.Db.FileName.{
  padded, decimal, data_file_suffix, get_data_file_name, length-get_data_file_name,
}
use raft_bitcask.Db.Append.{IsLive}
use raft_bitcask.Db.Close.{hint_file_name, merge_finished_file_name}
use raft_bitcask.Db.Load.{
  start, load_loop, load_files, load_index, files_to_process, listed_files, move_write_off,
}
use raft_bitcask.Db.Load.Replay.{log_bytes, process_all, load_loop-log}
use raft_bitcask.Db.Load.Recovery.{IsLogged, fresh, length-log_bytes}
use raft_bitcask.Db.Open.{
  blank, forget_merge, open_files, load_data_files, load_index_from_hint_file, init,
}
use raft_bitcask.Db.Open.Scan.{AreFrom, scan_files-AreFrom}

abbrev pub is_some : Option Bytes → Bool
is_some none = false
is_some (some b) = true

-- The directory has data file 0 and no other, and no hint file.
pub record HasOneFile {os : Calls} (disk : Reliable os) (d : os.Disk) (dir_path : FilePath)
    (b : Bytes) : Type 0 where
  pub file_0 : disk.content d (get_data_file_name dir_path 0) ≡ some b
  pub no_other : (fid : ℕ) → fid ≢ 0 → disk.content d (get_data_file_name dir_path fid) ≡ none
  pub no_hint : disk.content d (dir_path ++ (b'/' ∷ hint_file_name)) ≡ none

-- The path of the mark of a finished merge has the same length, but ends otherwise.
mark_differs :
    (dir_path : FilePath)
    → get_data_file_name dir_path 0 ≢ (dir_path ++ (b'/' ∷ merge_finished_file_name))
unfolding get_data_file_name
mark_differs dir_path e =
    let number = padded (decimal 0) in
    let names : number ++ data_file_suffix ≡ merge_finished_file_name =
      sym (drop-append 1 dir_path (b'/' ∷ (number ++ data_file_suffix)))
      ∙ ap (drop (length dir_path + 1)) e
      ∙ drop-append 1 dir_path (b'/' ∷ merge_finished_file_name) in
    let size : length number ≡ 9 =
      omega (arith, length-append number data_file_suffix, ap (λ (t : FilePath). length t) names) in
    let ends : data_file_suffix ≡ drop 9 merge_finished_file_name =
      sym (drop-append_self number data_file_suffix)
      ∙ ap (λ (n : ℕ). drop n (number ++ data_file_suffix)) size
      ∙ ap (drop 9) names in
    omega (arith, ap (λ (t : FilePath). get_or t 0 0) ends)

pub hint_differs :
    (dir_path : FilePath) → (dir_path ++ (b'/' ∷ hint_file_name)) ≢ get_data_file_name dir_path 0
hint_differs dir_path e = omega (
  arith,
  ap (λ (t : FilePath). length t) e,
  length-append dir_path (b'/' ∷ hint_file_name),
  length-get_data_file_name dir_path 0,
)

module _ {os : Calls} (disk : Reliable os) (file_exists : os.Disk → FilePath → Bool)
    (stat : (d : os.Disk) (p : FilePath) → file_exists d p ≡ is_some (disk.content d p))
    (remove_file : os.Disk → FilePath → os.Disk)
    (removes : (d : os.Disk) (p q : FilePath)
      → q ≢ p
      → disk.content (remove_file d p) q ≡ disk.content d q)
    (d : os.Disk) (options : Options) (b : Bytes) (one : HasOneFile disk d options.dir_path b) where
  abbrev path_0 : FilePath
  path_0 = get_data_file_name options.dir_path 0

  -- The file as it is opened, and the database with it.
  abbrev opened : DataFile
  opened = record { file_id = 0; write_off = 0; path = path_0; is_open = true }

  abbrev with_file : Db os
  with_file = record (blank d options) {
    disk = (os.open_file d path_0).1;
    file_ids = 0 ∷ [];
    active_file = some opened;
  }

  only_file_0 : AreFrom (λ fid. file_exists d (get_data_file_name options.dir_path fid)) 0 1
  only_file_0 zero = stat d path_0 ∙ ap is_some one.file_0 ∙ ground arith
  only_file_0 (suc n) =
      stat d _ ∙ ap is_some (one.no_other (suc n) (λ e. omega (arith, e))) ∙ ground arith

  load_data_files-one :
      (is_initial : Bool)
      → load_data_files file_exists is_initial (blank d options) ≡ (ok tt, with_file)
  unfolding load_data_files open_files open_data_file
  load_data_files-one is_initial =
      rw
        (
          load_data_files,
          scan_files-AreFrom _ 0 1 only_file_0 (omega arith) (omega arith),
          disk.open-true d path_0,
          scan_files-AreFrom _ 0 1 only_file_0 (omega arith) (omega arith),
        )
        refl

  holds_still : disk.content with_file.disk path_0 ≡ some b
  holds_still = disk.open-content d path_0 ∙ ap (λ o. some (Option.get_or o [])) one.file_0

  hint_absent :
      (fuel : ℕ) → load_index_from_hint_file file_exists fuel with_file ≡ some (ok with_file)
  unfolding load_index_from_hint_file
  hint_absent fuel =
      let hint = options.dir_path ++ (b'/' ∷ hint_file_name) in
      let gone : file_exists with_file.disk hint ≡ false =
        stat with_file.disk hint
        ∙ ap is_some
            (disk.open-other d path_0 hint (hint_differs options.dir_path) ∙ one.no_hint) in
      rw (load_index_from_hint_file, gone) refl

  -- The mark of a finished merge may be removed, which leaves the file alone.
  forget_merge-content :
      (e : os.Disk) × (forget_merge file_exists remove_file with_file
        ≡ record with_file { disk = e })
      × (disk.content e path_0 ≡ some b)
  unfolding forget_merge
  forget_merge-content =
      let mark = options.dir_path ++ (b'/' ∷ merge_finished_file_name) in
      elim (Bool-cases (file_exists with_file.disk mark)) [
        | inl there ↦ (
          remove_file with_file.disk mark,
          rw (forget_merge, there) refl,
          removes with_file.disk mark path_0 (mark_differs options.dir_path) ∙ holds_still,
        )
        | inr absent ↦ (with_file.disk, rw (forget_merge, absent) refl, holds_still)
      ]

  module _ (rs : List LogRecord) (fuel : ℕ) (holds : b ≡ log_bytes rs)
      (readable : All IsReadable rs) (enough : length b < fuel) where
    -- The database behind the replay, on a disk.
    abbrev loaded_on : os.Disk → Db os
    loaded_on e =
        let s = process_all 0 0 rs (start with_file) in
        record with_file {
          disk = e;
          index = s.index;
          reclaim_size = s.reclaim_size;
          seq_no = s.current_seq_no;
          active_file = some (record opened { write_off = length b });
        }

    load_index-process_all :
        (e : os.Disk)
        → disk.content e path_0 ≡ some b
        → load_index os fuel (record with_file { disk = e }) ≡ some (ok (loaded_on e))
    unfolding load_index load_files move_write_off files_to_process listed_files file_of has_id
    load_index-process_all e content =
        let count : length rs < fuel =
          omega (arith, length-log_bytes rs readable, ap (λ (t : Bytes). length t) holds) in
        let loop : load_loop os fuel e opened 0 (start with_file)
            ≡ some (ok (process_all 0 0 rs (start with_file), length b)) =
          load_loop-log disk e opened b refl content fuel rs [] (start with_file) readable holds
            count in
        rw (load_index, load_files, loop) refl

    -- A start, on fuel for the bytes of the file and one round more, where the file holds the log of
    -- the records, returns; the index is what their replay gives, and the file is written at its end.
    pub init-process_all :
        (is_initial : Bool)
        → (out : Db os) × (init file_exists remove_file fuel is_initial (blank d options)
            ≡ some (ok out))
          × (out.index ≡ (process_all 0 0 rs (start with_file)).index)
          × IsLive disk out (record opened { write_off = length b }) b
    unfolding init
    init-process_all is_initial =
        let (e, forgotten, content) = forget_merge-content in
        (
          loaded_on e,
          rw (init, load_data_files-one is_initial, hint_absent fuel)
              (ap (load_index os fuel) forgotten ∙ load_index-process_all e content),
          refl,
          record { active = refl; opened = refl; holds = content; at_end = refl },
        )

-- On a disk that does not fail, and where the removal of a file leaves the others alone: where the log
-- of a database whose active file is data file 0 is that of its index, a start in a directory that
-- holds this log as its one data file and no hint file, on fuel for the bytes of the log and one round
-- more, returns with the same index, and the log is that of the index again.
pub init-IsLogged :
    {os : Calls} (disk : Reliable os) (file_exists : os.Disk → FilePath → Bool)
    (stat : (d : os.Disk) (p : FilePath) → file_exists d p ≡ is_some (disk.content d p))
    (remove_file : os.Disk → FilePath → os.Disk)
    (removes : (d : os.Disk) (p q : FilePath)
      → q ≢ p
      → disk.content (remove_file d p) q ≡ disk.content d q)
    (db : Db os) (f : DataFile) (rs : List LogRecord)
    → IsLogged disk db f rs
    → f.file_id ≡ 0
    → (d : os.Disk) (options : Options) → HasOneFile disk d options.dir_path (log_bytes rs)
    → (fuel : ℕ) (is_initial : Bool) → length (log_bytes rs) < fuel
    → (out : Db os) × (init file_exists remove_file fuel is_initial (blank d options)
        ≡ some (ok out))
      × (out.index ≡ db.index)
      × IsLogged disk out
          (record {
            file_id = 0;
            write_off = length (log_bytes rs);
            path = get_data_file_name options.dir_path 0;
            is_open = true;
          })
          rs
init-IsLogged disk file_exists stat remove_file removes db f rs logged first d options one fuel
      is_initial enough =
    let (out, e, index, live) =
      init-process_all disk file_exists stat remove_file removes d options (log_bytes rs) one rs
        fuel refl logged.readable enough is_initial in
    let replay = λ (n : ℕ).
      ap (λ (k : ℕ). (process_all k 0 rs (fresh n)).index) (sym first) ∙ logged.replayed n in
    (
      out,
      e,
      index ∙ replay 0,
      record {
        live = live;
        readable = logged.readable;
        replayed = λ n. replay n ∙ sym (index ∙ replay 0);
        closed = λ n.
            ap (λ (k : ℕ). (process_all k 0 rs (fresh n)).transaction_records) (sym first)
            ∙ logged.closed n;
      },
    )
