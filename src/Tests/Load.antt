-- ===== src/Tests/Load.antt =====
-- Restarts, batches and the change of files, at concrete inputs.
use raft_bitcask.Prelude.{
  ◌+◌, ◌%◌, ◌^◌, ◌≡◌, refl, true, some, List, [], ◌∷◌, ◌++◌, length, arith, ℕ, inl, inr, All,
  append-nil, length-append, ◌≤◌,
}
use raft_bitcask.Common.{ok, deleted}
use raft_bitcask.Codec.Record.{LogRecord, encode}
use raft_bitcask.Codec.Record.Header.{length-encode}
use raft_bitcask.Codec.SeqKey.{log_record_key_with_seq, IsPlainKey, short-IsPlainKey}
use raft_bitcask.Storage.FileSystem.{overwrite}
use raft_bitcask.Codec.LittleEndian.{push_le}
use raft_bitcask.Storage.DataFile.{DataFile}
use raft_bitcask.Storage.DataFile.Reads.{IsReadable}
use raft_bitcask.Index.BTree.{new_index}
use raft_bitcask.Db.{Db, append_log_record}
use raft_bitcask.Db.FileName.{get_data_file_name}
use raft_bitcask.Db.Rotation.{rotation_overwrites}
use raft_bitcask.Db.Represents.Operations.{HasRoom, put_record, remove_record}
use raft_bitcask.Db.Load.{LoadState, load_loop}
use raft_bitcask.Db.Load.Replay.{log_bytes, process_all}
use raft_bitcask.Db.Load.Fuel.{load_loop-Ends}
use raft_bitcask.Db.Load.Recovery.{IsLogged, fresh, put-IsLogged}
use raft_bitcask.Db.Load.Atomic.{
  tagged_all, positions, process_all-unfinished, process_all-finished,
}
use raft_bitcask.Db.Batch
use raft_bitcask.Db.Batch.{WriteBatch, tagged, txn_fin_record, commit}
use raft_bitcask.Db.Batch.Run.{up_to}
use raft_bitcask.Db.Batch.Commit.{batch_log, commit-IsLogged}
use raft_bitcask.Tests.Disk.{memory, memory_reliable}
use raft_bitcask.Tests.Db.{
  options, file, empty_db, empty_db-IsLive, key, value, put_room, one_db, one_file, remove_room,
}

empty_db-IsLogged : IsLogged memory_reliable empty_db file []
unfolding process_all
empty_db-IsLogged = record {
  live = empty_db-IsLive;
  readable = tt;
  replayed = λ n. refl;
  closed = λ n. refl;
}

pub key_plain : IsPlainKey key
key_plain = short-IsPlainKey key (omega arith)

load_loop-Ends_example :
    (out : LoadState × ℕ) × (load_loop memory 4 (λ _. some (1 ∷ 2 ∷ 3 ∷ [])) file 0 (fresh 0)
      ≡ some (ok out))
load_loop-Ends_example =
    load_loop-Ends memory_reliable (λ _. some (1 ∷ 2 ∷ 3 ∷ [])) file (1 ∷ 2 ∷ 3 ∷ []) refl refl 4 0
      (fresh 0) (omega arith) (omega arith)

abbrev pub one_log : List LogRecord
one_log = put_record key value ∷ []

-- A batch that sets one key and deletes another.
abbrev first : LogRecord
first = put_record key value

abbrev others : List LogRecord
others = record { key = 2 ∷ []; value = []; type = deleted } ∷ []

process_all-unfinished_example :
    (process_all 0 0 (tagged_all 5 (first ∷ others)) (fresh 0)).index ≡ new_index
process_all-unfinished_example =
    process_all-unfinished 5 (omega arith) (λ e. omega (arith, e)) 0 0 (first ∷ others) (fresh 0)
      (inl refl, (inr refl, tt))

process_all-finished_example :
    ((process_all 0 0 (tagged_all 5 (first ∷ others) ++ (txn_fin_record 5 ∷ [])) (fresh 0)).index
      ≡ (Batch.update_indexes (first ∷ others) (positions 0 5 0 (first ∷ others)) empty_db).index)
    × ((process_all 0 0
          (tagged_all 5 (first ∷ others) ++ (txn_fin_record 5 ∷ []))
          (fresh 0)).transaction_records
        ≡ [])
process_all-finished_example =
    process_all-finished 5 (omega arith) (λ e. omega (arith, e)) 0 0 first others (fresh 0) empty_db
      (inl refl, (inr refl, tt)) refl refl

remove_log_room : HasRoom one_db (log_bytes one_log) (remove_record key)
remove_log_room = rw (append-nil (encode first).0) remove_room

pub one_db-IsLogged : IsLogged memory_reliable one_db one_file one_log
one_db-IsLogged = put-IsLogged empty_db file [] empty_db-IsLogged 1 [] value key_plain put_room

abbrev batch : WriteBatch
batch = record {
  options = record { max_batch_num = 10; sync_writes = true };
  pending_writes = first ∷ others;
  seq_no = 5;
}

batch-IsReadable : All IsReadable (batch_log 5 (first ∷ others))
unfolding log_record_key_with_seq push_le
batch-IsReadable = (
  record { some_key = omega arith; key_fits = omega arith; value_fits = omega arith },
  (
    record { some_key = omega arith; key_fits = omega arith; value_fits = omega arith },
    (record { some_key = omega arith; key_fits = omega arith; value_fits = omega arith }, tt),
  ),
)

batch_room : 0 + length (log_bytes (batch_log 5 (first ∷ others))) ≤ 1000
unfolding log_record_key_with_seq push_le
batch_room =
    let (a, (b, (c, _))) = batch-IsReadable in
    let e1 = length-encode (tagged 5 first) (omega (arith, a.key_fits), omega arith) in
    let e2 =
      length-encode (tagged 5 (record { key = 2 ∷ []; value = []; type = deleted }))
        (omega arith, omega arith) in
    let e3 = length-encode (txn_fin_record 5) (omega arith, omega arith) in
    omega (
      arith,
      length-append (encode (tagged 5 first)).0
          (log_bytes (tagged_all 5 others ++ (txn_fin_record 5 ∷ []))),
      length-append (encode (tagged 5 (record { key = 2 ∷ []; value = []; type = deleted }))).0
          (log_bytes (txn_fin_record 5 ∷ [])),
      length-append (encode (txn_fin_record 5)).0 [],
    )

commit-IsLogged_example :
    ((commit batch empty_db).0 ≡ ok (record batch { pending_writes = [] }))
    × IsLogged memory_reliable
        (commit batch empty_db).1
        (up_to file (log_bytes (batch_log 5 (first ∷ others))))
        (batch_log 5 (first ∷ others))
commit-IsLogged_example =
    commit-IsLogged empty_db file [] empty_db-IsLogged batch first others refl (omega arith)
      (λ e. omega (arith, e)) (inl refl, (inr refl, tt)) batch-IsReadable batch_room

-- The active file has id 1 and is full; file 0 holds other bytes.
abbrev full_file : DataFile
full_file = record { file_id = 1; write_off = 1; path = 47 ∷ []; is_open = true }

abbrev full_db : Db memory
full_db = record empty_db {
  disk = λ _. some (9 ∷ []);
  options = record options { data_file_size = 1 };
  active_file = some full_file;
}

rotation_overwrites_example :
    ((append_log_record first full_db).0
      ≡ ok (record { fid = 0; offset = 0; size = length (encode first).0 % 2 ^ 32 }))
    × (memory_reliable.content (append_log_record first full_db).1.disk (get_data_file_name [] 0)
        ≡ some (overwrite 0 (encode first).0 (9 ∷ [])))
rotation_overwrites_example =
    rotation_overwrites memory_reliable full_db full_file (9 ∷ []) (9 ∷ []) first
      (record { active = refl; opened = refl; holds = refl; at_end = refl })
      (omega (arith, length-encode first (omega arith))) refl
