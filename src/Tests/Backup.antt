-- ===== src/Tests/Backup.antt =====
-- A backup at concrete inputs.
use mathlib.Core.Option
use raft_bitcask.Prelude.{
  ◌∙◌, take, drop, length, false, ℕ, ◌≡◌, ◌≢◌, refl, ap, Bool, true, Option, some, none, [], ◌∷◌,
  if◌then◌else◌, get_or, arith,
}
use raft_bitcask.Common.{Bytes, ok}
use raft_bitcask.Index.KeyOrder.{key_eq, key_eq_self, eq_of_key_eq}
use raft_bitcask.Storage.FileSystem.{FilePath, overwrite}
use raft_bitcask.Storage.DataFile.{DataFile}
use raft_bitcask.Db.{Db}
use raft_bitcask.Db.Append.{IsLive}
use raft_bitcask.Db.FileName.{get_data_file_name}
use raft_bitcask.Db.Open.{blank}
use raft_bitcask.Db.Open.Restart.{HasOneFile, hint_differs}
use raft_bitcask.Db.Backup.{backup}
use raft_bitcask.Db.Backup.Copies.{make_directory, copy_within, backup-HasOneFile}
use raft_bitcask.Storage.Utils.{Streams, file_exists}
use raft_bitcask.Storage.Utils.Copy.{ReliableStreams, is_there}
use raft_bitcask.Tests.Disk.{update, update_self, update_other, memory, memory_reliable}
use raft_bitcask.Tests.Db.{options}

abbrev Files : Type 0
Files = FilePath → Option Bytes

abbrev streams : Streams Files
streams = record {
  fopen_read = λ d p. is_there (d p);
  fopen_write = λ d p. (true, update d p []);
  fread = λ d p offset count. take count (drop offset (Option.get_or (d p) []));
  fwrite = λ d p bytes offset.
      (length bytes, update d p (overwrite offset bytes (Option.get_or (d p) [])));
  ferror = λ d p. false;
  fflush = λ d p. (true, d);
  mkdir = λ d p. d;
  stat = λ d p. Option.map (λ b. true) (d p);
}

stat_there :
    (o : Option Bytes)
    → (elim (Option.map (λ b. true) o) as (λ _. Bool) [ none ↦ false | some regular ↦ regular ])
      ≡ is_there o
stat_there none = refl
stat_there (some b) = refl

streams-ReliableStreams : ReliableStreams streams memory_reliable.content
streams-ReliableStreams = record {
  fopen_read-content = λ d p. refl;
  fopen_write-true = λ d p. refl;
  fopen_write-content = λ d p. update_self d p [];
  fopen_write-other = λ d p q other. update_other d p q [] other;
  fread-content =
      λ d p offset count b has. ap (λ o. take count (drop offset (Option.get_or o []))) has;
  fwrite-count = λ d p bytes offset. refl;
  fwrite-content = λ d p bytes offset b has.
      update_self d p _ ∙ ap (λ o. some (overwrite offset bytes (Option.get_or o []))) has;
  fwrite-other = λ d p q bytes offset other. update_other d p q _ other;
  ferror-false = λ d p. refl;
  fflush-true = λ d p. refl;
  fflush-content = λ d p q. refl;
  mkdir-content = λ d p q. refl;
  stat-content = λ d p. stat_there (d p);
}

abbrev source : Files
source p = if key_eq p (get_data_file_name [] 0) then some (7 ∷ []) else none

abbrev source_file : DataFile
source_file = record { file_id = 0; write_off = 1; path = get_data_file_name [] 0; is_open = true }

abbrev source_db : Db memory
source_db = record (blank source options) { file_ids = 0 ∷ []; active_file = some source_file }

source_db-IsLive : IsLive memory_reliable source_db source_file (7 ∷ [])
source_db-IsLive = record {
  active = refl;
  opened = refl;
  holds = rw (key_eq_self (get_data_file_name [] 0)) refl;
  at_end = refl;
}

source_elsewhere : (p : FilePath) → p ≢ get_data_file_name [] 0 → source p ≡ none
source_elsewhere p other = ground (arith, eq_of_key_eq p (get_data_file_name [] 0))

-- A path that begins otherwise than the data file's.
starts_apart : (p : FilePath) → get_or p 0 0 ≡ 98 → p ≢ get_data_file_name [] 0
unfolding get_data_file_name
starts_apart p h e = omega (arith, h, ap (λ (t : FilePath). get_or t 0 0) e)

starts : (fid : ℕ) → get_or (get_data_file_name (98 ∷ []) fid) 0 0 ≡ 98
unfolding get_data_file_name
starts fid = refl

backup-HasOneFile_example :
    ((backup
        (make_directory streams)
        (file_exists streams)
        (copy_within streams 2)
        (98 ∷ [])
        source_db).0
      ≡ ok tt)
    × HasOneFile memory_reliable
        (backup
          (make_directory streams)
          (file_exists streams)
          (copy_within streams 2)
          (98 ∷ [])
          source_db).1.disk
        (98 ∷ [])
        (7 ∷ [])
backup-HasOneFile_example =
    backup-HasOneFile memory_reliable streams streams-ReliableStreams 2 source_db source_file
      (7 ∷ []) (omega arith) source_db-IsLive refl refl refl (98 ∷ [])
      (λ fid. source_elsewhere _ (starts_apart _ (starts fid)))
      (source_elsewhere _ (starts_apart _ refl)) (source_elsewhere _ (hint_differs []))
      (λ e. omega (arith, starts 0, ap (λ (t : FilePath). get_or t 0 0) e))
