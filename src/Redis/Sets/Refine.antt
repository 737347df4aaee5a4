-- ===== src/Redis/Sets/Refine.antt =====
-- `sadd`, `sismember` and `srem` on a set in the database. A member stands for a field with an empty value.
use raft_bitcask.Prelude.{
  ℕ, ◌+◌, ◌≤◌, ◌<◌, ◌≡◌, ◌==◌, refl, ap, ◌∙◌, true, false, not, Bool-cases, inl, inr, none, some,
  [], ◌∷◌, length, arith, if◌then◌else◌,
}
use raft_bitcask.Common.{Bytes, IsU64, ok}
use raft_bitcask.Exec.{pure}
use raft_bitcask.Storage.DataFile.{max_record_size}
use raft_bitcask.Db.Represents.{KeyMap}
use raft_bitcask.Db.Represents.Operations.{set_key}
use raft_bitcask.Redis.DataType
use raft_bitcask.Redis.Metadata.{RedisMetadata, encode}
use raft_bitcask.Redis.Keys.{
  hash_internal_key, set_internal_key, set-eq-hash, length-hash_internal_key,
}
use raft_bitcask.Redis.Fields.{
  Fields, value_of, insert_field, delete_field, length-insert_field, length-delete_field,
}
use raft_bitcask.Redis.Options.{is_some}
use raft_bitcask.Redis.Store.{Store, IsMap}
use raft_bitcask.Redis.Service.{
  Service, suc_32, pred_32, catch_not_found, db_put, db_remove, find_metadata, is_stored,
}
use raft_bitcask.Redis.Service.Runs.{Yields, Yields-bind, At, At-le, is_stored_lem}
use raft_bitcask.Redis.Sets.{put_member, sadd, sismember, remove_member, srem}
use raft_bitcask.Redis.Parts.Represents.{
  Describes, IsUnused, IsUnused-part, Holds, insert-Describes, delete-Describes, Describes-le,
}
use raft_bitcask.Redis.Parts.Find.{find_metadata-Finds}
use raft_bitcask.Redis.Parts.Writes.{
  part_room, IsPartKey, put_part-At, remove_part-At, stored-Holds, put_metadata-Holds, shrink-Holds,
}

-- The set with a member, and whether it has one.
abbrev pub add_member : Bytes → Fields → Fields
add_member member h = if is_some (value_of h member) then h else insert_field member [] h

module _ {store : Store} (laws : IsMap store) (now : ℕ → ℕ) (limit : ℕ) (key : Bytes) where
  module _ (s : Service store) (h : Fields) (n k : ℕ) (f : Bytes) (legal : IsPartKey key f)
      (md : RedisMetadata) (m : KeyMap) (t : ℕ) (here : At laws now m (part_room key f [] + n) t s)
      (d : Describes DataType.set key m md h (k + 1)) (unused : IsUnused key m (now t))
      (early : md.version < now t) (clock : t + k ≤ limit) where
    -- `sadd` behind `find_metadata`, whatever that found.
    put_member-Holds :
        (0 < length h → m key ≡ some (encode md))
        → Yields
            (put_member store now key f md s)
            (not (is_some (value_of h f)))
            (λ s'. Holds laws now limit DataType.set key s' (add_member f h) n k)
    unfolding put_member
    put_member-Holds stored =
        let slot = hash_internal_key key md.version f in
        let m' = set_key m slot (some []) in
        let short : length key ≤ max_record_size = omega (arith, legal.1) in
        let long_slot : 0 < length slot =
          omega (arith, length-hash_internal_key key md.version f, legal.0) in
        let (asked, at1) =
          is_stored_lem laws now s m (part_room key f [] + n) t slot here long_slot in
        let s1 = (is_stored store now slot s).1 in
        let (put, at2) =
          put_part-At laws now limit DataType.set key s1 m n t md.version f legal [] (omega arith)
            at1 in
        let s2 = (db_put store now slot [] s1).1 in
        let unused' = IsUnused-part key m (now t) md.version f (some []) d.version early unused in
        let count = length-insert_field f [] h in
        let known : is_some (m slot) ≡ is_some (value_of h f) = ap is_some (d.parts f) in
        elim (Bool-cases (is_some (value_of h f))) [
          | inl there ↦
              let some_part : 0 < length h = omega (arith, length-delete_field f h there) in
              let held =
                stored-Holds laws now limit DataType.set key legal.0 short s1 m n t md h k
                  (Describes-le DataType.set key m md h (k + 1) k d (omega arith)) unused clock
                  (At-le laws now s1 m (part_room key f [] + n) t n at1 (omega arith))
                  (stored some_part) some_part in
              rw (set-eq-hash key md.version f, asked, known, there) (refl, held)
          | inr absent ↦
              let more : length (insert_field f [] h) ≡ length h + 1 = ground (arith, count) in
              let size : suc_32 md.size ≡ length (insert_field f [] h) =
                omega (arith, d.size, d.count, more) in
              let md' = record md { size = suc_32 md.size } in
              let d' = insert-Describes DataType.set key m md h k (suc_32 md.size) f [] size d in
              let (done, held) =
                put_metadata-Holds laws now limit DataType.set key legal.0 short s2 m' n t md'
                  (insert_field f [] h) k d' unused' clock at2 (omega (arith, more)) in
              rw (set-eq-hash key md.version f, asked, known, absent, put, done) (refl, held)
        ]

    -- `srem` of a member behind its checks.
    remove_member-Holds :
        is_some (value_of h f) ≡ true
        → Yields
            (remove_member store now key f md s)
            true
            (λ s'. Holds laws now limit DataType.set key s' (delete_field f h) n k)
    unfolding remove_member catch_not_found
    remove_member-Holds there =
        let slot = hash_internal_key key md.version f in
        let m' = set_key m slot none in
        let short : length key ≤ max_record_size = omega (arith, legal.1) in
        let fewer = length-delete_field f h there in
        let size : pred_32 md.size + 1 ≡ length h = omega (arith, d.size, d.count, fewer) in
        let (gone, at1) =
          remove_part-At laws now limit DataType.set key s m n t md.version f legal here in
        let s1 = (db_remove store now slot s).1 in
        let md' = record md { size = pred_32 md.size } in
        let d' = delete-Describes DataType.set key m md h k (pred_32 md.size) f size there d in
        let (done, held) =
          shrink-Holds laws now limit DataType.set key legal.0 short s1 m' n t md'
            (delete_field f h) k d'
            (IsUnused-part key m (now t) md.version f none d.version early unused) clock at1 in
        rw (set-eq-hash key md.version f, gone, done) (refl, held)

  -- `sismember` behind `find_metadata`.
  sismember_found :
      (s : Service store) (n k : ℕ) (f : Bytes)
      → 0 < length key
      → (md : RedisMetadata) (m : KeyMap) (t : ℕ) (h : Fields) → At laws now m n t s
      → Describes DataType.set key m md h (k + 1)
      → ((if md.size == 0
            then pure false
            else is_stored store now (set_internal_key key md.version f))
          s).0
        ≡ ok (is_some (value_of h f))
  sismember_found s n k f some_key md m t [] here d = rw d.size refl
  sismember_found s n k f some_key md m t (x ∷ xs) here d =
      let full : (md.size == 0) ≡ false = ground (arith, d.size) in
      let slot = hash_internal_key key md.version f in
      let long : 0 < length slot =
        omega (arith, length-hash_internal_key key md.version f, some_key) in
      simp (full, set-eq-hash key md.version f)
        ((is_stored_lem laws now s m n t slot here long).0 ∙ ap (λ o. ok (is_some o)) (d.parts f))

  module _ (rising : (t : ℕ) → now t < now (t + 1)) (bounded : (t : ℕ) → t < limit → IsU64 (now t))
      (s : Service store) (h : Fields) (n k : ℕ) (f : Bytes) (legal : IsPartKey key f) where
    -- `sadd` to a set that the key holds, an empty one by being missing, returns whether the member is
    -- new, and the key then holds the set with the member. This needs room in the log for the two
    -- records, a clock that rises and stays within 64 bits up to its limit, and an operation left
    -- before the limit of the clock or of the size; key and member are short enough for a record.
    pub sadd-Holds :
        Holds laws now limit DataType.set key s h (part_room key f [] + n) (k + 1)
        → Yields
            (sadd store now key f s)
            (not (is_some (value_of h f)))
            (λ s'. Holds laws now limit DataType.set key s' (add_member f h) n k)
    unfolding sadd
    sadd-Holds q =
        let found =
          find_metadata-Finds laws now limit DataType.set key refl rising bounded legal.0 s h
            (part_room key f [] + n) k q in
        Yields-bind (find_metadata store now key DataType.set) (put_member store now key f) s
          found.md (not (is_some (value_of h f)))
          (At laws now found.map (part_room key f [] + n) found.readings)
          (λ s'. Holds laws now limit DataType.set key s' (add_member f h) n k) found.run
          (λ s' here.
            put_member-Holds s' h n k f legal found.md found.map found.readings here found.describes
              found.unused found.early found.clock found.stored)

    -- `srem` of a member of the set that the key holds returns true, and the key then holds the set without
    -- it. This needs room in the log for the two records, a clock that rises
    -- and stays within 64 bits up to its limit, and an operation left before the limit of the clock or of
    -- the size; key and member are short enough for a record.
    pub srem-Holds :
        Holds laws now limit DataType.set key s h (part_room key f [] + n) (k + 1)
        → is_some (value_of h f) ≡ true
        → Yields
            (srem store now key f s)
            true
            (λ s'. Holds laws now limit DataType.set key s' (delete_field f h) n k)
    unfolding srem
    srem-Holds q there =
        let found =
          find_metadata-Finds laws now limit DataType.set key refl rising bounded legal.0 s h
            (part_room key f [] + n) k q in
        let md = found.md in
        let full : (md.size == 0) ≡ false =
          ground (arith, found.describes.size, length-delete_field f h there) in
        Yields-bind (find_metadata store now key DataType.set) _ s md true
          (At laws now found.map (part_room key f [] + n) found.readings)
          (λ s'. Holds laws now limit DataType.set key s' (delete_field f h) n k) found.run
          (λ s' here. simp full (
            remove_member-Holds s' h n k f legal md found.map found.readings here found.describes
              found.unused found.early found.clock there))

    -- `sismember` returns whether the set that the key holds has the member. This needs a clock that rises
    -- and stays within 64 bits up to its limit, and an operation left before the limit of the clock or of
    -- the size; key and member are short enough for a record.
    pub sismember-value_of :
        Holds laws now limit DataType.set key s h n (k + 1)
        → (sismember store now key f s).0 ≡ ok (is_some (value_of h f))
    unfolding sismember
    sismember-value_of q =
        let found =
          find_metadata-Finds laws now limit DataType.set key refl rising bounded legal.0 s h n k
            q in
        rw (found.run.0) (
          sismember_found (find_metadata store now key DataType.set s).1 n k f legal.0 found.md
            found.map found.readings h found.run.1 found.describes)
