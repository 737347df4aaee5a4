-- ===== src/Tests/Open.antt =====
-- Starts at concrete inputs.
use raft_bitcask.Prelude.{
  ℕ, suc, Option, ◌<◌, ◌≡◌, ◌≢◌, refl, ap, Bool, true, false, ◌&&◌, some, none, [], length, leb,
  ltb, All, arith, if◌then◌else◌,
}
use raft_bitcask.Common.{Bytes, Result, ok}
use raft_bitcask.Index.KeyOrder.{key_eq, key_eq_self, eq_of_key_eq}
use raft_bitcask.Storage.FileSystem.{FilePath}
use raft_bitcask.Db.{Db}
use raft_bitcask.Db.FileName.{get_data_file_name, get_data_file_name-injective}
use raft_bitcask.Storage.DataFile.{DataFile}
use raft_bitcask.Db.FileName.{value_of}
use raft_bitcask.Db.FileName.Digits.{value_of-decimal}
use raft_bitcask.Db.Close.{write_seq_no}
use raft_bitcask.Db.Open.SeqNo.{seq_file_path, load_seq_no, load_seq_no-write_seq_no}
use raft_bitcask.Db.Load.Replay.{log_bytes}
use raft_bitcask.Db.Load.Recovery.{IsLogged}
use raft_bitcask.Db.Open.{hint_loop, scan_files, blank, init}
use raft_bitcask.Index.BTree.{BTreeIndex, new_index}
use raft_bitcask.Db.Open.HintFuel.{hint_loop-Ends}
use raft_bitcask.Db.Open.Scan.{scan_files-All}
use raft_bitcask.Db.Open.Restart.{is_some, HasOneFile, hint_differs, init-IsLogged}
use raft_bitcask.Tests.Disk.{remove_file, remove_other, memory, memory_reliable}
use raft_bitcask.Tests.Db.{empty_db, options, one_db, one_file}
use raft_bitcask.Tests.Load.{one_log, one_db-IsLogged}

abbrev from_two : ℕ → Bool
from_two fid = leb 2 fid && ltb fid 4

scan_files-All_example : All (λ k. k < 1000) (scan_files from_two)
scan_files-All_example = scan_files-All from_two

abbrev found : (FilePath → Option Bytes) → FilePath → Bool
found d p = is_some (d p)

abbrev one_file_disk : FilePath → Option Bytes
one_file_disk p = if key_eq p (get_data_file_name [] 0) then some (log_bytes one_log) else none

not_there : (p : FilePath) → p ≢ get_data_file_name [] 0 → one_file_disk p ≡ none
not_there p other = ground (arith, eq_of_key_eq p (get_data_file_name [] 0))

one_file_disk-HasOneFile : HasOneFile memory_reliable one_file_disk [] (log_bytes one_log)
one_file_disk-HasOneFile = record {
  file_0 = rw (key_eq_self (get_data_file_name [] 0)) refl;
  no_other = λ fid other. not_there _ (λ e. other (get_data_file_name-injective [] fid 0 e));
  no_hint = not_there _ (hint_differs []);
}

init-IsLogged_example :
    (out : Db memory) × (init found remove_file
        (suc (length (log_bytes one_log)))
        false
        (blank one_file_disk options)
      ≡ some (ok out))
    × (out.index ≡ one_db.index)
    × IsLogged memory_reliable out
        (record {
          file_id = 0;
          write_off = length (log_bytes one_log);
          path = get_data_file_name [] 0;
          is_open = true;
        })
        one_log
init-IsLogged_example =
    init-IsLogged memory_reliable found (λ d p. refl) remove_file remove_other one_db one_file
      one_log one_db-IsLogged refl one_file_disk options one_file_disk-HasOneFile
      (suc (length (log_bytes one_log))) false (omega arith)

-- The file of the sequence number, opened by `close`, and the database that is closed.
abbrev seq_file : DataFile
seq_file = record { file_id = 0; write_off = 0; path = seq_file_path []; is_open = true }

abbrev closing : Db memory
closing = record empty_db { seq_no = 12 }

abbrev opening : Db memory
opening = blank (write_seq_no seq_file closing).1.disk options

load_seq_no-write_seq_no_example :
    ((load_seq_no {os = memory} found remove_file (λ b. some (value_of 0 b)) opening).0 ≡ ok tt)
    × ((load_seq_no {os = memory} found remove_file (λ b. some (value_of 0 b)) opening).1.seq_no
        ≡ 12)
load_seq_no-write_seq_no_example =
    load_seq_no-write_seq_no memory_reliable found (λ d p. refl) remove_file
      (λ b. some (value_of 0 b)) (λ n fits. ap some (value_of-decimal n)) closing opening seq_file
      [] (omega arith) refl refl refl refl refl

abbrev opened_file : DataFile
opened_file = record { file_id = 0; write_off = 0; path = get_data_file_name [] 0; is_open = true }

hint_loop-Ends_example :
    (r : Result BTreeIndex) × (hint_loop memory
        (suc (length (log_bytes one_log)))
        one_file_disk
        opened_file
        0
        new_index
      ≡ some r)
hint_loop-Ends_example =
    hint_loop-Ends memory_reliable one_file_disk opened_file (log_bytes one_log) refl
      one_file_disk-HasOneFile.file_0 (suc (length (log_bytes one_log))) 0 new_index (omega arith)
      (omega arith)
