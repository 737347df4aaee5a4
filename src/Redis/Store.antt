-- ===== src/Redis/Store.antt =====
-- What the data structures use of the database `db_`, as an interface: `Store` has the operations, and
-- `IsMap` the laws of a map from keys to values with room for so many bytes of log.
use raft_bitcask.Prelude.{ℕ, ◌+◌, ◌≤◌, ◌<◌, ◌≡◌, none, some, List, [], length}
use raft_bitcask.Common.{Bytes, Result, ok}
use raft_bitcask.Exec.{Exec}
use raft_bitcask.Storage.DataFile.{max_record_size}
use raft_bitcask.Db.Represents.{KeyMap, lookup_result}
use raft_bitcask.Db.Represents.Operations.{set_key}

pub record Store : Type 1 where
  pub State : Type 0
  pub put : Bytes → Bytes → Exec State (Unit {0})
  pub get : State → Bytes → Result Bytes
  pub remove : Bytes → Exec State (Unit {0})
  -- the keys that an iterator with the default options visits
  pub keys : State → List Bytes
  pub close : Exec State (Unit {0})

-- Log bytes that are enough for a record.
abbrev pub record_room : Bytes → Bytes → ℕ
record_room key value = 15 + (length key + length value)

-- A record that can be written, and read again.
abbrev pub Storable : Bytes → Bytes → Type 0
Storable key value =
    (0 < length key) × (length key ≤ max_record_size) × (length value ≤ max_record_size)

pub record IsMap (store : Store) : Type 1 where
  -- the state stands for the map, and has room for that many bytes
  pub Stands : store.State → KeyMap → ℕ → Type 0
  pub get-Stands :
      (s : store.State) (m : KeyMap) (n : ℕ)
      → Stands s m n
      → (key : Bytes) → store.get s key ≡ lookup_result key (m key)
  pub Stands-le : (s : store.State) (m : KeyMap) (n k : ℕ) → Stands s m n → k ≤ n → Stands s m k
  pub put-Stands :
      (s : store.State) (m : KeyMap) (n : ℕ) (key value : Bytes)
      → Stands s m (record_room key value + n)
      → Storable key value
      → ((store.put key value s).0 ≡ ok tt)
        × Stands (store.put key value s).1 (set_key m key (some value)) n
  pub remove-Stands :
      (s : store.State) (m : KeyMap) (n : ℕ) (key : Bytes)
      → Stands s m (record_room key [] + n)
      → Storable key []
      → ((store.remove key s).0 ≡ ok tt) × Stands (store.remove key s).1 (set_key m key none) n
