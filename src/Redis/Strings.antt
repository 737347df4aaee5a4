-- ===== src/Redis/Strings.antt =====
-- `set` and `get` of src/redis_data_structure.cpp. A value is stored behind its type and its time of
-- expiry.
pub mod RoundTrip
use raft_bitcask.Prelude.{
  ℕ, ◌+◌, ◌*◌, ◌%◌, ◌^◌, Bool, true, false, not, [], ◌∷◌, ◌++◌, length, take, drop, ltb, ◌==◌,
  if◌then◌else◌,
}
use raft_bitcask.Common.{Bytes, ok, throw, key_not_found, bitcask_exception}
use raft_bitcask.Codec.LittleEndian.{push_le, or_le}
use raft_bitcask.Exec.{Exec, pure, raise, ◌>>=◌, go_on}
use raft_bitcask.Redis.DataType
use raft_bitcask.Redis.Metadata.{RedisMetadata}
use raft_bitcask.Redis.Store.{Store}
use raft_bitcask.Redis.Service.{Service, add_64, current_timestamp, is_expired, db_put, db_get}

-- `encoded_value`
unfoldable pub encode_string : ℕ → Bytes → Bytes
encode_string expire value = DataType.string ∷ (push_le 8 0 expire ++ value)

module _ (store : Store) (now : ℕ → ℕ) where
  -- The time of expiry for a time to live in milliseconds; one below 0 counts as 0.
  unfoldable pub expiry : ℕ → Exec (Service store) ℕ
  unfolding current_timestamp
  expiry ttl =
      if ltb 0 ttl
      then (current_timestamp store now >>= λ t. pure (add_64 t (ttl * 1000000 % 2 ^ 64)))
      else pure 0

  -- `set`; an empty value is not stored.
  unfoldable pub set : Bytes → Bytes → ℕ → Exec (Service store) (Unit {0})
  unfolding expiry encode_string db_put
  set key [] ttl = pure tt
  set key (x ∷ xs) ttl =
      expiry ttl >>= λ expire. db_put store now key (encode_string expire (x ∷ xs))

  -- The part of `get` behind the read.
  unfoldable pub decode_string : Bytes → Exec (Service store) Bytes
  unfolding is_expired
  decode_string [] = raise key_not_found
  decode_string (data_type ∷ rest) =
      if ltb (length rest) 8
      then raise key_not_found
      else if not (data_type == DataType.string)
      then raise (bitcask_exception "Wrong type operation")
      else (is_expired store now (or_le 0 0 (take 8 rest)) >>= λ expired.
          if expired then raise key_not_found else pure (drop 8 rest))

  -- `get`
  unfoldable pub get : Bytes → Exec (Service store) Bytes
  unfolding db_get decode_string
  get key = db_get store now key >>= λ encoded_value. decode_string encoded_value
