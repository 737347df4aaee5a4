-- ===== src/Tests/Merge.antt =====
-- A merge at concrete inputs.
use raft_bitcask.Prelude.{
  ℕ, suc, Bool, false, none, ◌≤◌, ◌≡◌, ◌≢◌, refl, ap, true, List, Option, some, [], ◌∷◌, length,
  length-append, get_or, All, arith, if◌then◌else◌,
}
use raft_bitcask.Common.{Bytes, ok}
use raft_bitcask.Codec.Record.{LogRecord, encode}
use raft_bitcask.Index.KeyOrder.{key_eq, key_compare, key_eq_self, eq_of_key_eq}
use raft_bitcask.Storage.FileSystem.{FilePath}
use raft_bitcask.Storage.DataFile.{DataFile}
use raft_bitcask.Storage.DataFile.Reads.{IsReadable}
use raft_bitcask.Db.{Db, list_keys, get}
use raft_bitcask.Db.FileName.{get_data_file_name, get_data_file_name-injective}
use raft_bitcask.Db.Open.{blank, init}
use raft_bitcask.Db.Open.Restart.{is_some, HasOneFile, hint_differs}
use raft_bitcask.Db.Merge.Stands.{init-meaning}
use raft_bitcask.Db.Load.Replay.{log_bytes}
use raft_bitcask.Db.Represents.Operations.{put_record}
use raft_bitcask.Db.Merge.{MergeState, valid_records, merge_loop}
use raft_bitcask.Db.Merge.Loop.{IsReady}
use raft_bitcask.Db.Merge.Last.{meaning, ArePlain, latest}
use raft_bitcask.Db.Merge.Compact.{merge_loop-meaning}
use raft_bitcask.Tests.Disk.{remove_file, remove_other, memory, memory_reliable}
use raft_bitcask.Tests.Db.{options, empty_db, one_db, one_file, key, value, put_room}
use raft_bitcask.Tests.Load.{one_log, one_db-IsLogged, key_plain}

abbrev merged_path : FilePath
merged_path = 1 ∷ []

abbrev hint_path : FilePath
hint_path = 2 ∷ []

abbrev merge_disk : FilePath → Option Bytes
merge_disk p = if key_eq p (47 ∷ []) then some (log_bytes one_log) else some []

abbrev merged_file : DataFile
merged_file = record { file_id = 0; write_off = 0; path = merged_path; is_open = true }

abbrev state : MergeState memory
state = record {
  merge_db = record empty_db { disk = merge_disk; active_file = some merged_file };
  hint_file = record { file_id = 0; write_off = 0; path = hint_path; is_open = true };
}

state-IsReady :
    IsReady memory_reliable merged_path hint_path one_file.path
      (log_bytes one_log)
      state
      merged_file
      []
unfolding key_eq key_compare
state-IsReady = record {
  live = record { active = refl; opened = refl; holds = refl; at_end = refl };
  own_path = refl;
  hint_path = refl;
  hint_open = refl;
  hints = [];
  hint_holds = refl;
  source = refl;
}

heads_differ : (a b : ℕ) → a ≢ b → ◌≢◌ {A = FilePath} (a ∷ []) (b ∷ [])
heads_differ a b h e = h (ap (λ (t : FilePath). get_or t 0 0) e)

one_log_small : length (log_bytes one_log) ≤ 1000
one_log_small = omega (arith, put_room.room, length-append (encode (put_record key value)).0 [])

merge_loop-meaning_example :
    (ks : List LogRecord) × (st' : MergeState memory) × (g' : DataFile) × (merge_loop memory 2
        (valid_records one_db.index (list_keys one_db))
        one_file
        0
        state
      ≡ some st')
    × IsReady memory_reliable merged_path hint_path one_file.path
        (log_bytes one_log)
        st'
        g'
        (log_bytes ks)
    × All IsReadable ks
    × ArePlain ks
    × ((key : Bytes) → meaning ks key ≡ meaning one_log key)
merge_loop-meaning_example =
    merge_loop-meaning memory_reliable one_db one_file one_log one_db-IsLogged (key_plain, tt)
      merged_path hint_path (heads_differ 47 1 (λ e. omega (arith, e)))
      (heads_differ 47 2 (λ e. omega (arith, e))) (heads_differ 1 2 (λ e. omega (arith, e))) 2
      (omega arith) state merged_file state-IsReady one_log_small

-- The log with its record once more in front.
abbrev twice : List LogRecord
twice = put_record key value ∷ one_log

latest-twice : (k : Bytes) → latest k twice ≡ latest k one_log
unfolding latest
latest-twice k = by_test (key_eq key k)
  where
    by_test :
        (e : Bool)
        → (elim (if e then some (put_record key value) else none) as (λ _. Option LogRecord) [
          | some later ↦ some later
          | none ↦ if e then some (put_record key value) else none
        ])
          ≡ (if e then some (put_record key value) else none)
    by_test true = refl
    by_test false = refl

twice-meaning : (k : Bytes) → meaning twice k ≡ meaning one_log k
unfolding meaning
twice-meaning k = rw (meaning, latest-twice k) refl

abbrev twice_disk : FilePath → Option Bytes
twice_disk p = if key_eq p (get_data_file_name [] 0) then some (log_bytes twice) else none

twice_missing : (p : FilePath) → p ≢ get_data_file_name [] 0 → twice_disk p ≡ none
twice_missing p other = ground (arith, eq_of_key_eq p (get_data_file_name [] 0))

twice_disk-HasOneFile : HasOneFile memory_reliable twice_disk [] (log_bytes twice)
twice_disk-HasOneFile = record {
  file_0 = rw (key_eq_self (get_data_file_name [] 0)) refl;
  no_other = λ fid other. twice_missing _ (λ e. other (get_data_file_name-injective [] fid 0 e));
  no_hint = twice_missing _ (hint_differs []);
}

abbrev found : (FilePath → Option Bytes) → FilePath → Bool
found d p = is_some (d p)

init-meaning_example :
    (out : Db memory) × (init found remove_file
        (suc (length (log_bytes twice)))
        true
        (blank twice_disk options)
      ≡ some (ok out))
    × ((k : Bytes) → get out k ≡ get one_db k)
init-meaning_example =
    init-meaning memory_reliable found (λ d p. refl) remove_file remove_other one_db one_file
      one_log one_db-IsLogged (key_plain, tt) twice
      (one_db-IsLogged.readable.0, one_db-IsLogged.readable) (key_plain, (key_plain, tt))
      twice-meaning twice_disk options twice_disk-HasOneFile (suc (length (log_bytes twice))) true
      (omega arith)
