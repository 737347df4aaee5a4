-- ===== src/Redis/ZSets.antt =====
-- `zadd` and `zscore` of src/redis_data_structure.cpp. A score is given by its 64 bits: the code only
-- copies it.
use raft_bitcask.Prelude.{
  ℕ, ◌+◌, Bool, not, ◌&&◌, Option, none, some, List, [], ◌∷◌, length, take, drop, leb, ◌==◌,
  if◌then◌else◌,
}
use raft_bitcask.Common.{Bytes, key_not_found}
use raft_bitcask.Codec.LittleEndian.{or_le}
use raft_bitcask.Index.KeyOrder.{key_eq}
use raft_bitcask.Db.Iterator.{has_prefix}
use raft_bitcask.Exec.{Exec, pure, raise, ◌>>=◌}
use raft_bitcask.Redis.DataType
use raft_bitcask.Redis.Keys.{zset_internal_key}
use raft_bitcask.Redis.Store.{Store}
use raft_bitcask.Redis.Service.{Service, suc_32, db_put, find_metadata, is_stored, put_metadata}

-- The body of the loop in `zscore`: the score, if the key is that of the member.
unfoldable pub score_in : Bytes → ℕ → Bytes → Bytes → Option ℕ
score_in key version member current_key =
    let rest = drop (length key) current_key in
    if leb (length key + 8 + 8) (length current_key)
      && (has_prefix key current_key
          && ((or_le 0 0 (take 8 rest) == version) && key_eq (drop 16 rest) member))
    then some (or_le 0 0 (take 8 (drop 8 rest)))
    else none

-- The loop over the keys that the iterator visits.
unfoldable pub find_score : Bytes → ℕ → Bytes → List Bytes → Option ℕ
unfolding score_in
find_score key version member [] = none
find_score key version member (k ∷ rest) = elim (score_in key version member k) [
  | none ↦ find_score key version member rest
  | some score ↦ some score
]

module _ (store : Store) (now : ℕ → ℕ) where
  -- `zadd`: whether the internal key is new; the value of a member is empty.
  unfoldable pub zadd : Bytes → ℕ → Bytes → Exec (Service store) Bool
  zadd key score member = do
    metadata ← find_metadata store now key DataType.zset
    let internal_key = zset_internal_key key metadata.version score member
    member_exists ← is_stored store now internal_key
    _ ← db_put store now internal_key []
    _ ←
        (if member_exists
          then pure tt
          else put_metadata store now key (record metadata { size = suc_32 metadata.size }))
    pure (not member_exists)

  -- The end of `zscore`.
  unfoldable pub found_score : Option ℕ → Exec (Service store) ℕ
  found_score none = raise key_not_found
  found_score (some score) = pure score

  -- `zscore`
  unfoldable pub zscore : Bytes → Bytes → Exec (Service store) ℕ
  unfolding find_score found_score
  zscore key member = find_metadata store now key DataType.zset >>= λ metadata s.
      if metadata.size == 0
      then raise key_not_found s
      else found_score (find_score key metadata.version member (store.keys s.db)) s
