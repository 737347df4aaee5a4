-- ===== src/Redis/Hashes.antt =====
-- `hset`, `hget` and `hdel` of src/redis_data_structure.cpp.
pub mod Refine
pub mod Missing
use raft_bitcask.Prelude.{ℕ, Bool, true, false, not, ◌==◌, if◌then◌else◌}
use raft_bitcask.Common.{Bytes, key_not_found}
use raft_bitcask.Exec.{Exec, pure, raise, ◌>>=◌, go_on}
use raft_bitcask.Redis.DataType
use raft_bitcask.Redis.Metadata.{RedisMetadata}
use raft_bitcask.Redis.Keys.{hash_internal_key}
use raft_bitcask.Redis.Store.{Store}
use raft_bitcask.Redis.Service.{
  Service, suc_32, pred_32, catch_not_found, db_put, db_get, db_remove, find_metadata, is_stored,
  put_metadata, shrink,
}

module _ (store : Store) (now : ℕ → ℕ) where
  -- `hset` behind `find_metadata`
  unfoldable pub put_field : Bytes → Bytes → Bytes → RedisMetadata → Exec (Service store) Bool
  put_field key field value metadata = do
    let internal_key = hash_internal_key key metadata.version field
    field_exists ← is_stored store now internal_key
    _ ← db_put store now internal_key value
    _ ←
        (if field_exists
          then pure tt
          else put_metadata store now key (record metadata { size = suc_32 metadata.size }))
    pure (not field_exists)

  -- `hset`: whether the field is new.
  unfoldable pub hset : Bytes → Bytes → Bytes → Exec (Service store) Bool
  unfolding put_field
  hset key field value =
      find_metadata store now key DataType.hash >>= λ metadata. put_field key field value metadata

  -- `hget`
  unfoldable pub hget : Bytes → Bytes → Exec (Service store) Bytes
  hget key field = find_metadata store now key DataType.hash >>= λ metadata.
      if metadata.size == 0
      then raise key_not_found
      else db_get store now (hash_internal_key key metadata.version field)

  -- `hdel` behind its checks
  unfoldable pub remove_field : Bytes → Bytes → RedisMetadata → Exec (Service store) Bool
  remove_field key field metadata =
      catch_not_found
        (db_remove store now (hash_internal_key key metadata.version field) >>= λ _.
          shrink store now key (record metadata { size = pred_32 metadata.size }) >>= λ _.
          pure true)
        (pure false)

  -- `hdel`: whether a field was taken away, as far as `DB::remove` tells.
  unfoldable pub hdel : Bytes → Bytes → Exec (Service store) Bool
  unfolding remove_field
  hdel key field = find_metadata store now key DataType.hash >>= λ metadata.
      if metadata.size == 0 then pure false else remove_field key field metadata
