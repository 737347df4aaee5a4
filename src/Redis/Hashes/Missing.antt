-- ===== src/Redis/Hashes/Missing.antt =====
-- `hdel` of a field that the hash does not have.
use raft_bitcask.Prelude.{
  ℕ, ◌+◌, ◌<◌, ◌≡◌, ◌==◌, refl, ap, true, false, none, [], ◌∷◌, length, arith,
}
use raft_bitcask.Common.{Bytes, IsU64, ok, throw, key_not_found}
use raft_bitcask.Db.Represents.{KeyMap}
use raft_bitcask.Db.Represents.Operations.{set_key}
use raft_bitcask.Redis.DataType
use raft_bitcask.Redis.Metadata.{RedisMetadata}
use raft_bitcask.Redis.Keys.{hash_internal_key}
use raft_bitcask.Redis.KeyMaps.{set_key_self}
use raft_bitcask.Redis.Store.{Store, IsMap, record_room}
use raft_bitcask.Redis.Service.{Service, pred_32, catch_not_found, db_remove, find_metadata, shrink}
use raft_bitcask.Redis.Service.Runs.{db_remove-At, Yields, At, At-le}
use raft_bitcask.Redis.Service.Find.{find_metadata-missing}
use raft_bitcask.Index.KeyOrder.{key_eq}
use raft_bitcask.Redis.Hashes.{hget, remove_field, hdel}
use raft_bitcask.Redis.Parts.Represents.{Holds}
use raft_bitcask.Redis.Parts.Find.{find_metadata-Finds}
use raft_bitcask.Redis.Parts.Writes.{part_room, IsPartKey, remove_part-At}

module _ {store : Store} (laws : IsMap store) (now : ℕ → ℕ) (limit : ℕ) (key : Bytes) where
  -- With a size of one the key goes, whether the field is there or not.
  remove_field_last :
      (s : Service store) (n : ℕ) (f : Bytes)
      → IsPartKey key f
      → (md : RedisMetadata) (m : KeyMap) (t : ℕ) → At laws now m (part_room key f [] + n) t s
      → md.size ≡ 1
      → Yields
          (remove_field store now key f md s)
          true
          (λ s'. (m' : KeyMap) × (m' key ≡ none) × At laws now m' n t s')
  unfolding remove_field catch_not_found shrink
  remove_field_last s n f legal md m t here one =
      let slot = hash_internal_key key md.version f in
      let (gone, at1) =
        remove_part-At laws now limit DataType.hash key s m n t md.version f legal here in
      let s1 = (db_remove store now slot s).1 in
      let m1 = set_key m slot none in
      let (key_gone, at2) =
        db_remove-At laws now s1 m1 n t key
          (At-le laws now s1 m1 (52 + length key + n) t (record_room key [] + n) at1 (omega arith))
          (legal.0, omega (arith, legal.1), omega arith) in
      let empty : (pred_32 md.size == 0) ≡ true = ground arith in
      rw (gone, empty, key_gone) (refl, (set_key m1 key none, set_key_self m1 key none, at2))

  -- `hdel` of a field that the hash of the key does not have, where this has one field: it returns true
  -- all the same, and the one field is then not found. This needs room in the log for the two records,
  -- a clock that rises and stays within 64 bits up to its limit, and an operation left before the limit
  -- of the clock or of the size; key and field are short enough for a record.
  pub hdel_missing :
      (rising : (t : ℕ) → now t < now (t + 1)) (bounded : (t : ℕ) → t < limit → IsU64 (now t))
      (s : Service store) (g w f : Bytes) (n k : ℕ)
      → IsPartKey key f
      → Holds laws now limit DataType.hash key s ((g, w) ∷ []) (part_room key f [] + n) (k + 1)
      → key_eq g f ≡ false
      → let out = hdel store now key f s in
        (out.0 ≡ ok true) × ((hget store now key g out.1).0 ≡ throw key_not_found)
  unfolding hdel hget
  hdel_missing rising bounded s g w f n k legal q other =
      let found =
        find_metadata-Finds laws now limit DataType.hash key refl rising bounded legal.0 s
          ((g, w) ∷ []) (part_room key f [] + n) k q in
      let full : (found.md.size == 0) ≡ false = ap (λ (a : ℕ). a == 0) found.describes.size in
      let s1 = (find_metadata store now key DataType.hash s).1 in
      let (done, (m', gone, here)) =
        remove_field_last s1 n f legal found.md found.map found.readings found.run.1
          found.describes.size in
      let lost =
        find_metadata-missing laws now (remove_field store now key f found.md s1).1 m' n
          found.readings key DataType.hash here legal.0 gone in
      rw (found.run.0, full, done, lost.0) (refl, refl)
