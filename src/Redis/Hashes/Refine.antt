-- ===== src/Redis/Hashes/Refine.antt =====
-- `hset`, `hget` and `hdel` on a hash in the database.
use raft_bitcask.Prelude.{
  ℕ, ◌+◌, ◌≤◌, ◌<◌, ◌≡◌, ◌==◌, refl, ap, ◌∙◌, true, false, not, Bool-cases, inl, inr, none, some,
  Option, [], ◌∷◌, length, arith, if◌then◌else◌,
}
use raft_bitcask.Common.{Bytes, Result, IsU64, ok, throw, key_not_found}
use raft_bitcask.Exec.{raise}
use raft_bitcask.Storage.DataFile.{max_record_size}
use raft_bitcask.Db.Represents.{KeyMap, lookup_result}
use raft_bitcask.Db.Represents.Operations.{set_key}
use raft_bitcask.Redis.DataType
use raft_bitcask.Redis.Metadata.{RedisMetadata, encode}
use raft_bitcask.Redis.Keys.{hash_internal_key, hash_internal_key-ne, length-hash_internal_key}
use raft_bitcask.Redis.KeyMaps.{set_key_other}
use raft_bitcask.Redis.Fields.{
  Fields, value_of, insert_field, delete_field, length-insert_field, length-delete_field,
}
use raft_bitcask.Redis.Options.{is_some}
use raft_bitcask.Redis.Store.{Store, IsMap}
use raft_bitcask.Redis.Service.{
  Service, suc_32, pred_32, catch_not_found, db_put, db_get, db_remove, find_metadata, is_stored,
}
use raft_bitcask.Redis.Service.Runs.{
  lookup_result-some, lookup_result-none, Yields, Yields-bind, At, At-le, is_stored_lem,
}
use raft_bitcask.Redis.Hashes.{put_field, hset, hget, remove_field, hdel}
use raft_bitcask.Redis.Parts.Represents.{
  Describes, IsUnused, IsUnused-part, Holds, insert-Describes, delete-Describes,
}
use raft_bitcask.Redis.Parts.Find.{find_metadata-Finds}
use raft_bitcask.Redis.Parts.Writes.{
  part_room, IsPartKey, put_part-At, remove_part-At, stored-Holds, put_metadata-Holds, shrink-Holds,
}

-- The value of a field, or that it is not found.
abbrev pub field_result : Option Bytes → Result Bytes
field_result none = throw key_not_found
field_result (some v) = ok v

lookup_result-field_result :
    (key : Bytes) (value : Option Bytes)
    → 0 < length key
    → lookup_result key value ≡ field_result value
lookup_result-field_result key none some_key = lookup_result-none key some_key
lookup_result-field_result key (some v) some_key = lookup_result-some key v some_key

module _ {store : Store} (laws : IsMap store) (now : ℕ → ℕ) (limit : ℕ) (key : Bytes) where
  module _ (s : Service store) (h : Fields) (n k : ℕ) (f : Bytes) (legal : IsPartKey key f) where
    -- `hset` behind `find_metadata`, whatever that found.
    put_field-Holds :
        (md : RedisMetadata) (m : KeyMap) (t : ℕ) (v : Bytes)
        → length v ≤ max_record_size
        → At laws now m (part_room key f v + n) t s
        → Describes DataType.hash key m md h (k + 1)
        → (0 < length h → m key ≡ some (encode md))
        → IsUnused key m (now t)
        → md.version < now t
        → t + k ≤ limit
        → Yields
            (put_field store now key f v md s)
            (not (is_some (value_of h f)))
            (λ s'. Holds laws now limit DataType.hash key s' (insert_field f v h) n k)
    unfolding put_field
    put_field-Holds md m t v small here d stored unused early clock =
        let slot = hash_internal_key key md.version f in
        let m' = set_key m slot (some v) in
        let short : length key ≤ max_record_size = omega (arith, legal.1) in
        let long_slot : 0 < length slot =
          omega (arith, length-hash_internal_key key md.version f, legal.0) in
        let (asked, at1) =
          is_stored_lem laws now s m (part_room key f v + n) t slot here long_slot in
        let s1 = (is_stored store now slot s).1 in
        let (put, at2) =
          put_part-At laws now limit DataType.hash key s1 m n t md.version f legal v small at1 in
        let s2 = (db_put store now slot v s1).1 in
        let unused' = IsUnused-part key m (now t) md.version f (some v) d.version early unused in
        let count = length-insert_field f v h in
        let known : is_some (m slot) ≡ is_some (value_of h f) = ap is_some (d.parts f) in
        elim (Bool-cases (is_some (value_of h f))) [
          | inl there ↦
              let same : length (insert_field f v h) ≡ length h = ground (arith, count) in
              let some_part : 0 < length h = omega (arith, length-delete_field f h there) in
              let d' =
                insert-Describes DataType.hash key m md h k md.size f v
                  (omega (arith, d.size, same)) d in
              let has : m' key ≡ some (encode md) =
                set_key_other m slot key (some v) (hash_internal_key-ne key md.version f)
                ∙ stored some_part in
              let held =
                stored-Holds laws now limit DataType.hash key legal.0 short s2 m' n t md
                  (insert_field f v h) k d' unused' clock
                  (At-le laws now s2 m' (52 + length key + n) t n at2 (omega arith)) has
                  (omega (arith, same, some_part)) in
              rw (asked, known, there, put) (refl, held)
          | inr absent ↦
              let more : length (insert_field f v h) ≡ length h + 1 = ground (arith, count) in
              let size : suc_32 md.size ≡ length (insert_field f v h) =
                omega (arith, d.size, d.count, more) in
              let md' = record md { size = suc_32 md.size } in
              let d' = insert-Describes DataType.hash key m md h k (suc_32 md.size) f v size d in
              let (done, held) =
                put_metadata-Holds laws now limit DataType.hash key legal.0 short s2 m' n t md'
                  (insert_field f v h) k d' unused' clock at2 (omega (arith, more)) in
              rw (asked, known, absent, put, done) (refl, held)
        ]

    -- `hdel` of a field of the hash behind its checks.
    remove_field-Holds :
        (md : RedisMetadata) (m : KeyMap) (t : ℕ)
        → At laws now m (part_room key f [] + n) t s
        → Describes DataType.hash key m md h (k + 1)
        → IsUnused key m (now t)
        → md.version < now t
        → t + k ≤ limit
        → is_some (value_of h f) ≡ true
        → Yields
            (remove_field store now key f md s)
            true
            (λ s'. Holds laws now limit DataType.hash key s' (delete_field f h) n k)
    unfolding remove_field catch_not_found
    remove_field-Holds md m t here d unused early clock there =
        let slot = hash_internal_key key md.version f in
        let m' = set_key m slot none in
        let short : length key ≤ max_record_size = omega (arith, legal.1) in
        let fewer = length-delete_field f h there in
        let size : pred_32 md.size + 1 ≡ length h = omega (arith, d.size, d.count, fewer) in
        let (gone, at1) =
          remove_part-At laws now limit DataType.hash key s m n t md.version f legal here in
        let s1 = (db_remove store now slot s).1 in
        let md' = record md { size = pred_32 md.size } in
        let d' = delete-Describes DataType.hash key m md h k (pred_32 md.size) f size there d in
        let (done, held) =
          shrink-Holds laws now limit DataType.hash key legal.0 short s1 m' n t md'
            (delete_field f h) k d'
            (IsUnused-part key m (now t) md.version f none d.version early unused) clock at1 in
        rw (gone, done) (refl, held)

  -- `hget` behind `find_metadata`.
  hget_found :
      (s : Service store) (n k : ℕ) (f : Bytes)
      → 0 < length key
      → (md : RedisMetadata) (m : KeyMap) (t : ℕ) (h : Fields) → At laws now m n t s
      → Describes DataType.hash key m md h (k + 1)
      → ((if md.size == 0
            then raise key_not_found
            else db_get store now (hash_internal_key key md.version f))
          s).0
        ≡ field_result (value_of h f)
  unfolding db_get
  hget_found s n k f some_key md m t [] here d = rw d.size refl
  hget_found s n k f some_key md m t (x ∷ xs) here d =
      let full : (md.size == 0) ≡ false = ground (arith, d.size) in
      let slot = hash_internal_key key md.version f in
      let long : 0 < length slot =
        omega (arith, length-hash_internal_key key md.version f, some_key) in
      simp full (
        laws.get-Stands s.db m n here.0 slot
        ∙ rw (d.parts f) (lookup_result-field_result slot (value_of (x ∷ xs) f) long))

  module _ (rising : (t : ℕ) → now t < now (t + 1)) (bounded : (t : ℕ) → t < limit → IsU64 (now t))
      (s : Service store) (h : Fields) (n k : ℕ) (f : Bytes) (legal : IsPartKey key f) where
    -- `hset` of a field of a hash that the key holds, an empty one by being missing, returns whether
    -- the field is new, and the key then holds the hash with the value under the field. This needs room in
    -- the log for the two records, a clock that rises and stays within 64 bits up to its limit, and an
    -- operation left before the limit of the clock or of the size; key, field and value are short enough
    -- for a record.
    pub hset-Holds :
        (v : Bytes)
        → length v ≤ max_record_size
        → Holds laws now limit DataType.hash key s h (part_room key f v + n) (k + 1)
        → Yields
            (hset store now key f v s)
            (not (is_some (value_of h f)))
            (λ s'. Holds laws now limit DataType.hash key s' (insert_field f v h) n k)
    unfolding hset
    hset-Holds v small q =
        let found =
          find_metadata-Finds laws now limit DataType.hash key refl rising bounded legal.0 s h
            (part_room key f v + n) k q in
        Yields-bind (find_metadata store now key DataType.hash) (put_field store now key f v) s
          found.md (not (is_some (value_of h f)))
          (At laws now found.map (part_room key f v + n) found.readings)
          (λ s'. Holds laws now limit DataType.hash key s' (insert_field f v h) n k) found.run
          (λ s' here.
            put_field-Holds s' h n k f legal found.md found.map found.readings v small here
              found.describes found.stored found.unused found.early found.clock)

    -- `hdel` of a field that the hash of the key has returns true, and the key then holds the hash without
    -- the field. This needs room in the log for the two records, a clock that rises
    -- and stays within 64 bits up to its limit, and an operation left before the limit of the clock or of
    -- the size; key and field are short enough for a record.
    pub hdel-Holds :
        Holds laws now limit DataType.hash key s h (part_room key f [] + n) (k + 1)
        → is_some (value_of h f) ≡ true
        → Yields
            (hdel store now key f s)
            true
            (λ s'. Holds laws now limit DataType.hash key s' (delete_field f h) n k)
    unfolding hdel
    hdel-Holds q there =
        let found =
          find_metadata-Finds laws now limit DataType.hash key refl rising bounded legal.0 s h
            (part_room key f [] + n) k q in
        let md = found.md in
        let full : (md.size == 0) ≡ false =
          ground (arith, found.describes.size, length-delete_field f h there) in
        Yields-bind (find_metadata store now key DataType.hash) _ s md true
          (At laws now found.map (part_room key f [] + n) found.readings)
          (λ s'. Holds laws now limit DataType.hash key s' (delete_field f h) n k) found.run
          (λ s' here. simp full (
            remove_field-Holds s' h n k f legal md found.map found.readings here found.describes
              found.unused found.early found.clock there))

    -- `hget` returns the value of a field of the hash that the key holds, and throws that the key is not
    -- found for another field. This needs a clock that rises
    -- and stays within 64 bits up to its limit, and an operation left before the limit of the clock or of
    -- the size; key and field are short enough for a record.
    pub hget-value_of :
        Holds laws now limit DataType.hash key s h n (k + 1)
        → (hget store now key f s).0 ≡ field_result (value_of h f)
    unfolding hget
    hget-value_of q =
        let found =
          find_metadata-Finds laws now limit DataType.hash key refl rising bounded legal.0 s h n k
            q in
        rw (found.run.0) (
          hget_found (find_metadata store now key DataType.hash s).1 n k f legal.0 found.md
            found.map found.readings h found.run.1 found.describes)
