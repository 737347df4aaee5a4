-- ===== src/Redis/Sets.antt =====
-- `sadd`, `sismember` and `srem` of src/redis_data_structure.cpp.
pub mod Refine
use raft_bitcask.Prelude.{ℕ, Bool, true, false, [], ◌==◌, if◌then◌else◌}
use raft_bitcask.Common.{Bytes}
use raft_bitcask.Exec.{Exec, pure, raise, ◌>>=◌, go_on}
use raft_bitcask.Redis.DataType
use raft_bitcask.Redis.Metadata.{RedisMetadata}
use raft_bitcask.Redis.Keys.{set_internal_key}
use raft_bitcask.Redis.Store.{Store}
use raft_bitcask.Redis.Service.{
  Service, suc_32, pred_32, catch_not_found, db_put, db_remove, find_metadata, is_stored,
  put_metadata, shrink,
}

module _ (store : Store) (now : ℕ → ℕ) where
  -- `sadd` behind `find_metadata`
  unfoldable pub put_member : Bytes → Bytes → RedisMetadata → Exec (Service store) Bool
  put_member key member metadata = do
    let internal_key = set_internal_key key metadata.version member
    member_exists ← is_stored store now internal_key
    (if member_exists
        then pure false
        else (db_put store now internal_key [] >>= λ _.
            put_metadata store now key (record metadata { size = suc_32 metadata.size }) >>= λ _.
            pure true))

  -- `sadd`: whether the member is new; the value of a member is empty.
  unfoldable pub sadd : Bytes → Bytes → Exec (Service store) Bool
  unfolding put_member
  sadd key member =
      find_metadata store now key DataType.set >>= λ metadata. put_member key member metadata

  -- `sismember`
  unfoldable pub sismember : Bytes → Bytes → Exec (Service store) Bool
  sismember key member = find_metadata store now key DataType.set >>= λ metadata.
      if metadata.size == 0
      then pure false
      else is_stored store now (set_internal_key key metadata.version member)

  -- `srem` behind its checks
  unfoldable pub remove_member : Bytes → Bytes → RedisMetadata → Exec (Service store) Bool
  remove_member key member metadata =
      catch_not_found
        (db_remove store now (set_internal_key key metadata.version member) >>= λ _.
          shrink store now key (record metadata { size = pred_32 metadata.size }) >>= λ _.
          pure true)
        (pure false)

  -- `srem`: whether a member was taken away, as far as `DB::remove` tells.
  unfoldable pub srem : Bytes → Bytes → Exec (Service store) Bool
  unfolding remove_member
  srem key member = find_metadata store now key DataType.set >>= λ metadata.
      if metadata.size == 0 then pure false else remove_member key member metadata
