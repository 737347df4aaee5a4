-- ===== src/Redis/Parts/Writes.antt =====
-- The writes of the operations on a hash or a set, behind `find_metadata`.
use raft_bitcask.Prelude.{
  ℕ, ◌+◌, ◌*◌, ◌≤◌, ◌<◌, ◌≡◌, ◌==◌, Bool-cases, inl, inr, none, some, [], length, arith,
}
use raft_bitcask.Common.{Bytes}
use raft_bitcask.Storage.DataFile.{max_record_size}
use raft_bitcask.Db.Represents.{KeyMap}
use raft_bitcask.Db.Represents.Operations.{set_key}
use raft_bitcask.Redis.DataType.{RedisDataType}
use raft_bitcask.Redis.Metadata.{RedisMetadata, encode, length-encode_le}
use raft_bitcask.Redis.Keys.{hash_internal_key, length-hash_internal_key}
use raft_bitcask.Redis.KeyMaps.{set_key_self}
use raft_bitcask.Redis.Fields.{Fields}
use raft_bitcask.Redis.Store.{Store, IsMap, record_room}
use raft_bitcask.Redis.Service.{Service, db_put, db_remove, put_metadata, shrink}
use raft_bitcask.Redis.Service.Runs.{Yields, At, At-le, db_put-At, db_remove-At}
use raft_bitcask.Redis.Parts.Represents.{
  Describes, IsParts-of, IsParts-none, HasParts-metadata, IsUnused, IsUnused-metadata, Holds,
}

-- Log bytes that are enough for an operation on a part.
abbrev pub part_room : Bytes → Bytes → Bytes → ℕ
part_room key f v = 75 + (2 * length key + (length f + length v))

-- A key and a field whose internal key fits a record.
abbrev pub IsPartKey : Bytes → Bytes → Type 0
IsPartKey key f = (0 < length key) × (length key + (8 + length f) ≤ max_record_size)

module _ {store : Store} (laws : IsMap store) (now : ℕ → ℕ) (limit : ℕ) (data_type : RedisDataType)
    (key : Bytes) where
  module _ (s : Service store) (m : KeyMap) (n t version : ℕ) (f : Bytes)
      (legal : IsPartKey key f) where
    pub put_part-At :
        (v : Bytes)
        → length v ≤ max_record_size
        → At laws now m (part_room key f v + n) t s
        → Yields (db_put store now (hash_internal_key key version f) v s) tt (
            At laws now
              (set_key m (hash_internal_key key version f) (some v))
              (52 + length key + n)
              t)
    put_part-At v small here =
        let slot = hash_internal_key key version f in
        let size = length-hash_internal_key key version f in
        db_put-At laws now s m (52 + length key + n) t slot v
          (At-le laws now s m (part_room key f v + n) t (record_room slot v + (52 + length key + n))
            here (omega (arith, size)))
          (omega (arith, size), omega (arith, size, legal.1), small)

    pub remove_part-At :
        At laws now m (part_room key f [] + n) t s
        → Yields
            (db_remove store now (hash_internal_key key version f) s)
            tt
            (At laws now (set_key m (hash_internal_key key version f) none) (52 + length key + n) t)
    remove_part-At here =
        let slot = hash_internal_key key version f in
        let size = length-hash_internal_key key version f in
        db_remove-At laws now s m (52 + length key + n) t slot
          (At-le laws now s m (part_room key f [] + n) t
            (record_room slot [] + (52 + length key + n)) here (omega (arith, size)))
          (omega (arith, size), omega (arith, size, legal.1), omega arith)

  module _ (some_key : 0 < length key) (short_key : length key ≤ max_record_size)
      (s : Service store) (m : KeyMap) (n t : ℕ) (md : RedisMetadata) (h : Fields) (k : ℕ)
      (d : Describes data_type key m md h k) (unused : IsUnused key m (now t))
      (clock : t + k ≤ limit) where
    -- Where the key holds the metadata already, the fields stand under it.
    pub stored-Holds :
        At laws now m n t s
        → m key ≡ some (encode md)
        → 0 < length h
        → Holds laws now limit data_type key s h n k
    stored-Holds here has some_part = record {
      map = m;
      readings = t;
      at = here;
      parts = IsParts-of data_type key m md h k has some_part d;
      unused = unused;
      clock = clock;
    }

    -- Written, they stand under it too.
    pub put_metadata-Holds :
        At laws now m (52 + length key + n) t s
        → 0 < length h
        → Yields
            (put_metadata store now key md s)
            tt
            (λ s'. Holds laws now limit data_type key s' h n k)
    unfolding put_metadata
    put_metadata-Holds here some_part =
        let size = length-encode_le md in
        let m' = set_key m key (some (encode md)) in
        let (done, after) =
          db_put-At laws now s m n t key (encode md)
            (At-le laws now s m (52 + length key + n) t (record_room key (encode md) + n) here
              (omega (arith, size)))
            (some_key, short_key, omega (arith, size)) in
        (
          done,
          record {
            map = m';
            readings = t;
            at = after;
            parts =
                IsParts-of data_type key m' md h k (set_key_self m key (some (encode md))) some_part
                  (record {
                    type = d.type;
                    unlimited = d.unlimited;
                    version = d.version;
                    marks = d.marks;
                    size = d.size;
                    count = d.count;
                    distinct = d.distinct;
                    parts = HasParts-metadata key md.version m h _ d.parts;
                  });
            unused = IsUnused-metadata key m (now t) _ unused;
            clock = clock;
          },
        )

    -- Without parts the key goes instead.
    pub shrink-Holds :
        At laws now m (52 + length key + n) t s
        → Yields (shrink store now key md s) tt (λ s'. Holds laws now limit data_type key s' h n k)
    unfolding shrink
    shrink-Holds here = elim (Bool-cases (md.size == 0)) [
      | inl is_empty ↦
          let size : length h ≡ 0 = ground (arith, d.size) in
          let (done, after) =
            db_remove-At laws now s m n t key
              (At-le laws now s m (52 + length key + n) t (record_room key [] + n) here
                (omega arith))
              (some_key, short_key, omega arith) in
          rw is_empty (
            done,
            record {
              map = set_key m key none;
              readings = t;
              at = after;
              parts =
                  IsParts-none data_type key (set_key m key none) h k (set_key_self m key none) size
                    (omega (arith, d.count));
              unused = IsUnused-metadata key m (now t) none unused;
              clock = clock;
            },
          )
      | inr is_full ↦
          let size : 0 < length h = ground (arith, d.size) in
          rw is_full (put_metadata-Holds here size)
    ]
