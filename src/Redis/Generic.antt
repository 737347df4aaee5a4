-- ===== src/Redis/Generic.antt =====
-- `del`, `exists`, `type` and `close` of src/redis_data_structure.cpp.
use raft_bitcask.Prelude.{ℕ, Bool, true, false, [], ◌∷◌}
use raft_bitcask.Common.{Bytes, key_not_found}
use raft_bitcask.Exec.{Exec, pure, raise, ◌>>=◌}
use raft_bitcask.Redis.DataType.{RedisDataType}
use raft_bitcask.Redis.Store.{Store}
use raft_bitcask.Redis.Service.{Service, catch_not_found, db_get, db_remove, is_stored}

-- The first byte.
unfoldable pub type_of : {store : Store} → Bytes → Exec (Service store) RedisDataType
type_of [] = raise key_not_found
type_of (data_type ∷ rest) = pure data_type

module _ (store : Store) (now : ℕ → ℕ) where
  -- `del`
  unfoldable pub del : Bytes → Exec (Service store) Bool
  del key = catch_not_found (db_remove store now key >>= λ _. pure true) (pure false)

  -- `exists`
  unfoldable pub exists : Bytes → Exec (Service store) Bool
  exists key = is_stored store now key

  -- `type`
  unfoldable pub type : Bytes → Exec (Service store) RedisDataType
  unfolding type_of
  type key = db_get store now key >>= λ encoded_value. type_of encoded_value

  -- `close`
  unfoldable pub close : Exec (Service store) (Unit {0})
  close s = let (r, db') = store.close s.db in (r, record s { db = db' })
