-- ===== src/Redis/Service.antt =====
-- `RedisDataStructure` of src/redis_data_structure.cpp: its state, and what its operations share. The
-- system clock is the parameter `now`: its reading for each call of `current_timestamp`, by the number
-- of the calls before.
pub mod Runs
pub mod Find
use raft_bitcask.Prelude.{
  ℕ, ◌+◌, ◌-◌, ◌*◌, ◌/◌, ◌%◌, ◌^◌, Bool, true, false, not, [], ltb, leb, ◌==◌, if◌then◌else◌,
}
use raft_bitcask.Common.{Bytes, Error, Result, ok, throw, key_not_found, bitcask_exception}
use raft_bitcask.Exec.{Exec, pure, raise, ◌>>=◌, go_on}
use raft_bitcask.Redis.DataType
use raft_bitcask.Redis.DataType.{RedisDataType}
use raft_bitcask.Redis.Metadata.{RedisMetadata, encode, decode}
use raft_bitcask.Redis.Store.{Store}

pub record Service (store : Store) : Type 0 where
  pub db : store.State
  pub readings : ℕ

-- `INITIAL_LIST_MARK`
abbrev pub initial_list_mark : ℕ
initial_list_mark = 2 ^ 63 - 1

-- `uint64_t` and `uint32_t` arithmetic
abbrev pub add_64 : ℕ → ℕ → ℕ
add_64 a b = (a + b) % 2 ^ 64

abbrev pub pred_64 : ℕ → ℕ
pred_64 a = (a + 2 ^ 64 - 1) % 2 ^ 64

abbrev pub suc_32 : ℕ → ℕ
suc_32 a = (a + 1) % 2 ^ 32

abbrev pub pred_32 : ℕ → ℕ
pred_32 a = (a + 2 ^ 32 - 1) % 2 ^ 32

-- `catch (const KeyNotFoundError&)`: the handler runs in the state that the exception left.
abbrev pub handle {ℓ} : {S A : Type ℓ} → Result A → Exec S A → Exec S A
handle (throw key_not_found) handler s = handler s
handle r handler s = (r, s)

unfoldable pub catch_not_found {ℓ} : {S A : Type ℓ} → Exec S A → Exec S A → Exec S A
catch_not_found body handler s = let (r, s') = body s in handle r handler s'

-- A call that leaves the state alone.
abbrev pub lift {ℓ} : {S A : Type ℓ} → Result A → Exec S A
lift r s = (r, s)

module _ (store : Store) (now : ℕ → ℕ) where
  -- The calls of the database.
  unfoldable pub db_put : Bytes → Bytes → Exec (Service store) (Unit {0})
  db_put key value s = let (r, db') = store.put key value s.db in (r, record s { db = db' })

  unfoldable pub db_get : Bytes → Exec (Service store) Bytes
  db_get key s = (store.get s.db key, s)

  unfoldable pub db_remove : Bytes → Exec (Service store) (Unit {0})
  db_remove key s = let (r, db') = store.remove key s.db in (r, record s { db = db' })

  -- `current_timestamp`
  unfoldable pub current_timestamp : Exec (Service store) ℕ
  current_timestamp s = (ok (now s.readings), record s { readings = s.readings + 1 })

  -- `is_expired`; without a time of expiry the clock is not read.
  unfoldable pub is_expired : ℕ → Exec (Service store) Bool
  unfolding current_timestamp
  is_expired expire =
      if ltb 0 expire then (current_timestamp >>= λ t. pure (leb expire t)) else pure false

  -- Metadata for a key that is not there.
  unfoldable pub new_metadata : RedisDataType → Exec (Service store) RedisMetadata
  unfolding current_timestamp
  new_metadata data_type = current_timestamp >>= λ t.
      let mark : ℕ = if data_type == DataType.list then initial_list_mark else 0 in
      pure (record {
        data_type = data_type;
        expire = 0;
        version = t;
        size = 0;
        head = mark;
        tail = mark;
      })

  -- The checks of `find_metadata` on decoded metadata.
  unfoldable pub usable_metadata :
      Bytes → RedisDataType → RedisMetadata → Exec (Service store) RedisMetadata
  unfolding is_expired db_remove new_metadata
  usable_metadata key data_type metadata =
      if not (metadata.data_type == data_type)
      then raise (bitcask_exception "Wrong type operation")
      else (is_expired metadata.expire >>= λ expired.
          if expired then (db_remove key >>= λ _. new_metadata data_type) else pure metadata)

  -- The body of the `try` block of `find_metadata`.
  unfoldable pub stored_metadata : Bytes → RedisDataType → Exec (Service store) RedisMetadata
  unfolding db_get usable_metadata
  stored_metadata key data_type = do
    metadata_bytes ← db_get key
    metadata ← lift (decode metadata_bytes)
    usable_metadata key data_type metadata

  -- `find_metadata`
  unfoldable pub find_metadata : Bytes → RedisDataType → Exec (Service store) RedisMetadata
  unfolding stored_metadata new_metadata catch_not_found
  find_metadata key data_type =
      catch_not_found (stored_metadata key data_type) (new_metadata data_type)

  -- Whether `db_->get` of a key returns, as `hset` and others ask by `try` and `catch`.
  unfoldable pub is_stored : Bytes → Exec (Service store) Bool
  unfolding db_get catch_not_found
  is_stored key = catch_not_found (db_get key >>= λ _. pure true) (pure false)

  -- `db_->put(string_to_bytes(key), metadata.encode())`
  unfoldable pub put_metadata : Bytes → RedisMetadata → Exec (Service store) (Unit {0})
  unfolding db_put
  put_metadata key metadata = db_put key (encode metadata)

  -- The end of the operations that take a part away: without parts the key goes too.
  unfoldable pub shrink : Bytes → RedisMetadata → Exec (Service store) (Unit {0})
  unfolding db_remove put_metadata
  shrink key metadata = if metadata.size == 0 then db_remove key else put_metadata key metadata
