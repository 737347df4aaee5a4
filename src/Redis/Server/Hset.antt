-- ===== src/Redis/Server/Hset.antt =====
-- `handle_hset` of src/redis_server.cpp on several fields.
use raft_bitcask.Prelude.{
  ℕ, ◌+◌, ◌-◌, ◌%◌, ◌≤◌, ◌<◌, ◌≡◌, ◌==◌, refl, true, not, List, [], ◌∷◌, length, if◌then◌else◌,
  arith,
}
use raft_bitcask.Common.{Bytes, Error, IsU64}
use raft_bitcask.Exec.{Exec}
use raft_bitcask.Storage.DataFile.{max_record_size}
use raft_bitcask.Redis.DataType
use raft_bitcask.Redis.Fields.{Fields, value_of, insert_field, length-insert_field}
use raft_bitcask.Redis.Options.{is_some}
use raft_bitcask.Redis.Store.{Store, IsMap}
use raft_bitcask.Redis.Service.{Service}
use raft_bitcask.Redis.Service.Runs.{Yields, Yields-bind}
use raft_bitcask.Redis.Hashes.{hset}
use raft_bitcask.Redis.Hashes.Refine.{hset-Holds}
use raft_bitcask.Redis.Parts.Represents.{Holds}
use raft_bitcask.Redis.Parts.Writes.{part_room, IsPartKey}
use raft_bitcask.Redis.Server.Responses.{RedisResponse, integer}
use raft_bitcask.Redis.Server.Handlers.{caught, error_response, put_fields, handle_hset}

-- A `try` block that returns.
Yields-caught :
    {S A : Type 0} (body : Exec S A) (f : A → RedisResponse) (g : Error → RedisResponse) (s : S)
    (a : A) (Q : S → Type 0)
    → Yields (body s) a Q
    → Yields (caught body f g s) (f a) Q
unfolding caught
Yields-caught body f g s a Q (e, q) = rw e (refl, q)

-- The hash behind fields and values in turn.
abbrev pub insert_all : List Bytes → Fields → Fields
insert_all [] h = h
insert_all (f ∷ []) h = h
insert_all (f ∷ v ∷ rest) h = insert_all rest (insert_field f v h)

abbrev pub pairs : List Bytes → ℕ
pairs [] = 0
pairs (f ∷ []) = 0
pairs (f ∷ v ∷ rest) = pairs rest + 1

-- Log bytes that are enough for them.
abbrev pub fields_room : Bytes → List Bytes → ℕ
fields_room key [] = 0
fields_room key (f ∷ []) = 0
fields_room key (f ∷ v ∷ rest) = part_room key f v + fields_room key rest

-- Each of them fits a record.
abbrev pub AllLegal : Bytes → List Bytes → Type 0
AllLegal key [] = Unit
AllLegal key (f ∷ []) = Unit
AllLegal key (f ∷ v ∷ rest) = IsPartKey key f × (length v ≤ max_record_size) × AllLegal key rest

length-insert_all : (fields : List Bytes) (h : Fields) → length h ≤ length (insert_all fields h)
length-insert_all [] h = omega arith
length-insert_all (f ∷ []) h = omega arith
length-insert_all (f ∷ v ∷ rest) h =
    ground (arith, length-insert_field f v h, length-insert_all rest (insert_field f v h))

module _ {store : Store} (laws : IsMap store) (now : ℕ → ℕ) (limit : ℕ) (key : Bytes)
    (rising : (t : ℕ) → now t < now (t + 1)) (bounded : (t : ℕ) → t < limit → IsU64 (now t)) where
  -- The loop counts the fields that the hash has gained.
  put_fields-Holds :
      (fields : List Bytes) (c : ℕ) (s : Service store) (h : Fields) (n k : ℕ)
      → AllLegal key fields
      → Holds laws now limit DataType.hash key s h (fields_room key fields + n) (pairs fields + k)
      → Yields
          (put_fields store now key fields c s)
          (c + (length (insert_all fields h) - length h))
          (λ s'. Holds laws now limit DataType.hash key s' (insert_all fields h) n k)
  unfolding put_fields
  put_fields-Holds [] c s h n k legal q =
      let none_new : c + (length h - length h) ≡ c = omega arith in
      let n' : 0 + n ≡ n = omega arith in
      let k' : 0 + k ≡ k = omega arith in rw none_new (refl, rw (n', k') at q)
  put_fields-Holds (f ∷ []) c s h n k legal q =
      let none_new : c + (length h - length h) ≡ c = omega arith in
      let n' : 0 + n ≡ n = omega arith in
      let k' : 0 + k ≡ k = omega arith in rw none_new (refl, rw (n', k') at q)
  put_fields-Holds (f ∷ v ∷ rest) c s h n k (legal, small, later) q =
      let h' = insert_field f v h in
      let is_new = not (is_some (value_of h f)) in
      let n' : part_room key f v + fields_room key rest + n
          ≡ part_room key f v + (fields_room key rest + n) =
        omega arith in
      let k' : pairs rest + 1 + k ≡ pairs rest + k + 1 = omega arith in
      let c' = c + (if is_new then 1 else 0) in
      let count : c' + (length (insert_all rest h') - length h')
          ≡ c + (length (insert_all rest h') - length h) =
        ground (arith, length-insert_field f v h, length-insert_all rest h') in
      Yields-bind (hset store now key f v)
        (λ b. put_fields store now key rest (c + (if b then 1 else 0))) s is_new
        (c + (length (insert_all rest h') - length h))
        (λ s'.
          Holds laws now limit DataType.hash key s' h' (fields_room key rest + n) (pairs rest + k))
        (λ s'. Holds laws now limit DataType.hash key s' (insert_all rest h') n k)
        (hset-Holds laws now limit key rising bounded s h (fields_room key rest + n)
          (pairs rest + k) f legal v small (rw (n', k') at q))
        (λ s' there. rw count at (put_fields-Holds rest c' s' h' n k later there))

  -- `HSET` with fields and values in turn responds with the number of fields that the hash has gained, and
  -- the key then holds the hash with the values under the fields. This needs room in the log for the
  -- records, a clock that rises and stays within 64 bits up to its limit, and as many operations left
  -- before the limit of the clock or of the size; key, fields and values are short enough for a record.
  pub handle_hset-Holds :
      (name f v : Bytes) (rest : List Bytes) (s : Service store) (h : Fields) (n k : ℕ)
      → length rest % 2 ≡ 0
      → AllLegal key (f ∷ v ∷ rest)
      → Holds laws now limit DataType.hash key s h
          (fields_room key (f ∷ v ∷ rest) + n)
          (pairs (f ∷ v ∷ rest) + k)
      → Yields
          (handle_hset store now (name ∷ key ∷ f ∷ v ∷ rest) s)
          (integer (length (insert_all (f ∷ v ∷ rest) h) - length h))
          (λ s'. Holds laws now limit DataType.hash key s' (insert_all (f ∷ v ∷ rest) h) n k)
  unfolding handle_hset
  handle_hset-Holds name f v rest s h n k even legal q =
      let whole : (length rest % 2 == 0) ≡ true = ground (arith, even) in
      let gained = length (insert_all (f ∷ v ∷ rest) h) - length h in
      let count : 0 + gained ≡ gained = omega arith in
      let run = put_fields-Holds (f ∷ v ∷ rest) 0 s h n k legal q in
      rw whole (
        Yields-caught (put_fields store now key (f ∷ v ∷ rest) 0) integer error_response s gained
          (λ s'. Holds laws now limit DataType.hash key s' (insert_all (f ∷ v ∷ rest) h) n k)
          (rw count at run))
