-- ===== src/Redis/Service/Find.antt =====
-- `find_metadata` on a key that is missing, holds a value of the type or of another, or has expired.
use raft_bitcask.Prelude.{
  ℕ, ◌+◌, ◌<◌, ◌≡◌, ◌≢◌, refl, true, false, none, some, length, ◌==◌, if◌then◌else◌, arith,
}
use raft_bitcask.Common.{Bytes, ok, throw, bitcask_exception}
use raft_bitcask.Db.Represents.{KeyMap}
use raft_bitcask.Redis.DataType
use raft_bitcask.Redis.DataType.{RedisDataType}
use raft_bitcask.Redis.Metadata.{RedisMetadata, encode, decode-encode_metadata, IsValid}
use raft_bitcask.Redis.Store.{Store, IsMap}
use raft_bitcask.Redis.Service.{
  Service, initial_list_mark, catch_not_found, db_get, is_expired, current_timestamp, new_metadata,
  usable_metadata, stored_metadata, find_metadata,
}
use raft_bitcask.Redis.Service.Runs.{Yields, At, lookup_result-some, lookup_result-none}

-- The metadata of a key that is not there, at a reading of the clock.
abbrev pub fresh : RedisDataType → ℕ → RedisMetadata
fresh data_type time =
    let mark : ℕ = if data_type == DataType.list then initial_list_mark else 0 in
    record { data_type = data_type; expire = 0; version = time; size = 0; head = mark; tail = mark }

module _ {store : Store} (laws : IsMap store) (now : ℕ → ℕ) where
  new_metadata-fresh :
      (s : Service store) (m : KeyMap) (n t : ℕ) (data_type : RedisDataType)
      → At laws now m n t s
      → Yields
          (new_metadata store now data_type s)
          (fresh data_type (now t))
          (At laws now m n (t + 1))
  unfolding new_metadata current_timestamp
  new_metadata-fresh s m n t data_type (stands, read) = rw read (refl, (stands, refl))

  -- The checks, where the metadata is of the type and never expires.
  usable_metadata-live :
      (s : Service store) (key : Bytes) (md : RedisMetadata)
      → md.expire ≡ 0
      → usable_metadata store now key md.data_type md s ≡ (ok md, s)
  unfolding usable_metadata is_expired
  usable_metadata-live s key md live =
      let same : (md.data_type == md.data_type) ≡ true = ground arith in simp (same, live) refl

  module _ (s : Service store) (m : KeyMap) (n t : ℕ) (key : Bytes) where
    -- Of a key that holds metadata of the type with no time of expiry, `find_metadata` returns it.
    pub find_metadata-stored :
        (md : RedisMetadata)
        → At laws now m n t s
        → 0 < length key
        → m key ≡ some (encode md)
        → IsValid md
        → md.expire ≡ 0
        → Yields (find_metadata store now key md.data_type s) md (At laws now m n t)
    unfolding find_metadata stored_metadata catch_not_found db_get
    find_metadata-stored md here some_key has valid live =
        rw
          (
            find_metadata,
            laws.get-Stands s.db m n here.0 key,
            has,
            lookup_result-some key (encode md) some_key,
            decode-encode_metadata md valid,
            usable_metadata-live s key md live,
          )
          (refl, here)

    -- Of a key that is missing, it returns metadata without parts, whose version is the time.
    pub find_metadata-missing :
        (data_type : RedisDataType)
        → At laws now m n t s
        → 0 < length key
        → m key ≡ none
        → Yields
            (find_metadata store now key data_type s)
            (fresh data_type (now t))
            (At laws now m n (t + 1))
    unfolding find_metadata stored_metadata catch_not_found db_get
    find_metadata-missing data_type here some_key missing =
        rw
          (
            find_metadata,
            laws.get-Stands s.db m n here.0 key,
            missing,
            lookup_result-none key some_key,
          )
          (new_metadata-fresh s m n t data_type here)

    -- Where the key holds metadata of another type, it throws, and the state stays.
    pub find_metadata_wrong :
        (md : RedisMetadata) (data_type : RedisDataType)
        → At laws now m n t s
        → 0 < length key
        → m key ≡ some (encode md)
        → IsValid md
        → md.data_type ≢ data_type
        → find_metadata store now key data_type s
          ≡ (throw (bitcask_exception "Wrong type operation"), s)
    unfolding find_metadata stored_metadata catch_not_found db_get usable_metadata
    find_metadata_wrong md data_type here some_key has valid other =
        let differs : (md.data_type == data_type) ≡ false = ground arith in
        rw
          (
            find_metadata,
            laws.get-Stands s.db m n here.0 key,
            has,
            lookup_result-some key (encode md) some_key,
            decode-encode_metadata md valid,
            differs,
          )
          refl
