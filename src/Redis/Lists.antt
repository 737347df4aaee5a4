-- ===== src/Redis/Lists.antt =====
-- `lpush`, `rpush`, `lpop` and `rpop` of src/redis_data_structure.cpp. The elements stand under the
-- numbers from `head` to `tail`, the latter excluded.
pub mod Slots
pub mod Represents
pub mod Find
pub mod Push
pub mod Pop
pub mod Commands
use raft_bitcask.Prelude.{ℕ, Bool, true, false, ◌==◌, if◌then◌else◌}
use raft_bitcask.Common.{Bytes, key_not_found}
use raft_bitcask.Exec.{Exec, pure, raise, ◌>>=◌, go_on}
use raft_bitcask.Redis.DataType
use raft_bitcask.Redis.Metadata.{RedisMetadata}
use raft_bitcask.Redis.Keys.{list_internal_key}
use raft_bitcask.Redis.Store.{Store}
use raft_bitcask.Redis.Service.{
  Service, initial_list_mark, add_64, pred_64, suc_32, pred_32, db_put, db_get, db_remove,
  find_metadata, put_metadata, shrink,
}

-- `if (metadata.size == 0)` of the two operations that push.
unfoldable pub reset_marks : RedisMetadata → RedisMetadata
reset_marks metadata =
    if metadata.size == 0
    then record metadata { head = initial_list_mark; tail = initial_list_mark }
    else metadata

module _ (store : Store) (now : ℕ → ℕ) where
  -- `lpush` behind `find_metadata`
  unfoldable pub push_left : Bytes → Bytes → RedisMetadata → Exec (Service store) ℕ
  push_left key element metadata =
      let head = pred_64 metadata.head in
      let metadata' = record metadata { head = head; size = suc_32 metadata.size } in
      db_put store now (list_internal_key key metadata.version head) element >>= λ _.
      put_metadata store now key metadata' >>= λ _. pure metadata'.size

  -- `lpush`: the number of elements.
  unfoldable pub lpush : Bytes → Bytes → Exec (Service store) ℕ
  unfolding reset_marks push_left
  lpush key element = find_metadata store now key DataType.list >>= λ metadata.
      push_left key element (reset_marks metadata)

  unfoldable pub push_right : Bytes → Bytes → RedisMetadata → Exec (Service store) ℕ
  push_right key element metadata =
      let metadata' = record metadata {
        tail = add_64 metadata.tail 1;
        size = suc_32 metadata.size;
      } in
      db_put store now (list_internal_key key metadata.version metadata.tail) element >>= λ _.
      put_metadata store now key metadata' >>= λ _. pure metadata'.size

  -- `rpush`
  unfoldable pub rpush : Bytes → Bytes → Exec (Service store) ℕ
  unfolding reset_marks push_right
  rpush key element = find_metadata store now key DataType.list >>= λ metadata.
      push_right key element (reset_marks metadata)

  -- What `lpop` and `rpop` do with the element at an index, and with the metadata behind it.
  unfoldable pub take_out : Bytes → ℕ → RedisMetadata → Exec (Service store) Bytes
  take_out key index metadata =
      let internal_key = list_internal_key key metadata.version index in
      db_get store now internal_key >>= λ value.
      db_remove store now internal_key >>= λ _. shrink store now key metadata >>= λ _. pure value

  -- `lpop`
  unfoldable pub lpop : Bytes → Exec (Service store) Bytes
  unfolding take_out
  lpop key = find_metadata store now key DataType.list >>= λ metadata.
      if metadata.size == 0
      then raise key_not_found
      else take_out key metadata.head
          (record metadata { head = add_64 metadata.head 1; size = pred_32 metadata.size })

  -- `rpop`
  unfoldable pub rpop : Bytes → Exec (Service store) Bytes
  unfolding take_out
  rpop key = find_metadata store now key DataType.list >>= λ metadata.
      if metadata.size == 0
      then raise key_not_found
      else take_out key (pred_64 metadata.tail)
          (record metadata { tail = pred_64 metadata.tail; size = pred_32 metadata.size })
