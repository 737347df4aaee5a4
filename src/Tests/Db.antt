-- ===== src/Tests/Db.antt =====
-- A database in memory with one empty data file.
use raft_bitcask.Prelude.{
  ◌∙◌, ◌≤◌, ◌<◌, ap, ◌+◌, ◌≡◌, refl, true, none, some, [], ◌∷◌, ◌++◌, length, arith,
}
use raft_bitcask.Common.{Bytes, ok}
use raft_bitcask.Codec.Record.{LogRecord, encode}
use raft_bitcask.Codec.Record.Header.{length-encode}
use raft_bitcask.Index.KeyOrder.{key_eq_self}
use raft_bitcask.Storage.DataFile.{DataFile}
use raft_bitcask.Index.BTree.{new_index}
use raft_bitcask.Index.BTree.Laws.{get-new_index, get-put}
use raft_bitcask.Index.BTree
use raft_bitcask.Db.{Db, Options, put, get, remove, index_put}
use raft_bitcask.Codec.SeqKey.{log_record_key_with_seq}
use raft_bitcask.Db.Append.{IsLive, written, appended_at, append_log_record-IsLive}
use raft_bitcask.Db.Represents.{KeyMap, Represents, get-Represents, lookup_result}
use raft_bitcask.Db.Represents.Operations.{
  set_key, HasRoom, put_record, remove_record, put-Represents, remove-Represents,
}
use raft_bitcask.Tests.Disk.{memory, memory_reliable}

abbrev pub options : Options
options = record { dir_path = []; data_file_size = 1000; sync_writes = true; bytes_per_sync = 0 }

abbrev pub file : DataFile
file = record { file_id = 0; write_off = 0; path = 47 ∷ []; is_open = true }

abbrev pub empty_db : Db memory
empty_db = record {
  disk = λ _. some [];
  options = options;
  file_ids = [];
  active_file = some file;
  older_files = [];
  index = new_index;
  seq_no = 0;
  bytes_write = 0;
  reclaim_size = 0;
}

abbrev pub no_keys : KeyMap
no_keys key = none

abbrev pub key : Bytes
key = 1 ∷ []

abbrev pub value : Bytes
value = 7 ∷ []

pub empty_db-IsLive : IsLive memory_reliable empty_db file []
empty_db-IsLive = record { active = refl; opened = refl; holds = refl; at_end = refl }

pub empty_db-Represents : Represents memory_reliable empty_db file [] no_keys
empty_db-Represents = record { live = empty_db-IsLive; agrees = λ j. rw (get-new_index j) tt }

pub short_record-HasRoom :
    (db : Db memory) (b : Bytes) (r : LogRecord)
    → 0 < length r.key
    → length r.key + length r.value ≤ 10
    → length b + 25 ≤ db.options.data_file_size
    → HasRoom db b r
short_record-HasRoom db b r some_key short room = record {
  readable = record { some_key = some_key; key_fits = omega arith; value_fits = omega arith };
  room = omega (arith, length-encode r (omega arith));
}

pub put_room : HasRoom empty_db [] (put_record key value)
put_room =
    short_record-HasRoom empty_db [] (put_record key value) (omega arith) (omega arith)
      (omega arith)

abbrev pub one_db : Db memory
one_db = (put key value empty_db).1

abbrev pub one_file : DataFile
one_file = written memory_reliable file (encode (put_record key value)).0

put-Represents_example :
    ((put key value empty_db).0 ≡ ok tt)
    × Represents memory_reliable
        (put key value empty_db).1
        (written memory_reliable file (encode (put_record key value)).0)
        (encode (put_record key value)).0
        (set_key no_keys key (some value))
put-Represents_example =
    put-Represents empty_db file [] no_keys empty_db-Represents 1 [] value put_room

pub one_db-get :
    BTree.get one_db.index key ≡ some (appended_at memory_reliable file [] (put_record key value))
unfolding put index_put log_record_key_with_seq
one_db-get =
    let (done, live, tables) =
      append_log_record-IsLive memory_reliable empty_db file [] (put_record key value)
        empty_db-IsLive put_room.room in
    rw (one_db, done)
      ((get-put _ key key (appended_at memory_reliable file [] (put_record key value))).0
        ∙ rw (key_eq_self key) refl)

one_db-Represents :
    Represents memory_reliable one_db one_file
      (encode (put_record key value)).0
      (set_key no_keys key (some value))
one_db-Represents =
    (put-Represents empty_db file [] no_keys empty_db-Represents 1 [] value put_room).1

get-Represents_example : get one_db key ≡ lookup_result key (set_key no_keys key (some value) key)
get-Represents_example =
    get-Represents one_db one_file (encode (put_record key value)).0
      (set_key no_keys key (some value)) one_db-Represents key

same_options : one_db.options ≡ options
unfolding put index_put log_record_key_with_seq
same_options =
    let (done, live, tables) =
      append_log_record-IsLive memory_reliable empty_db file [] (put_record key value)
        empty_db-IsLive put_room.room in
    rw (one_db, done) tables.options

pub remove_room : HasRoom one_db (encode (put_record key value)).0 (remove_record key)
remove_room = short_record-HasRoom one_db _ (remove_record key) (omega arith) (omega arith) (
    omega (
      arith,
      ap (λ o. o.data_file_size) same_options,
      length-encode (put_record key value) (omega arith),
    ))

remove-Represents_example :
    ((remove key one_db).0 ≡ ok tt)
    × Represents memory_reliable
        (remove key one_db).1
        (written memory_reliable one_file (encode (remove_record key)).0)
        ((encode (put_record key value)).0 ++ (encode (remove_record key)).0)
        (set_key (set_key no_keys key (some value)) key none)
remove-Represents_example =
    remove-Represents one_db one_file (encode (put_record key value)).0
      (set_key no_keys key (some value)) one_db-Represents 1 [] value (rw (key_eq_self key))
      remove_room
