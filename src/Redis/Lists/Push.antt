-- ===== src/Redis/Lists/Push.antt =====
-- `lpush` and `rpush` on a list in the database.
use raft_bitcask.Prelude.{
  ℕ, ◌+◌, ◌*◌, ◌≤◌, ◌≡◌, sym, ap, ◌∙◌, some, List, [], ◌∷◌, ◌++◌, length, length-append, arith,
}
use raft_bitcask.Common.{Bytes, IsU64, ok}
use raft_bitcask.Storage.DataFile.{max_record_size}
use raft_bitcask.Db.Represents.{KeyMap}
use raft_bitcask.Db.Represents.Operations.{set_key}
use raft_bitcask.Redis.DataType
use raft_bitcask.Redis.Metadata.{RedisMetadata}
use raft_bitcask.Redis.Keys.{list_internal_key, length-list_internal_key}
use raft_bitcask.Redis.KeyMaps.{set_key_self}
use raft_bitcask.Redis.Store.{Store, IsMap, record_room}
use raft_bitcask.Redis.Service.{Service, add_64, pred_64, suc_32, db_put, find_metadata}
use raft_bitcask.Redis.Service.Runs.{Yields, Yields-bind, At, At-le, db_put-At}
use raft_bitcask.Redis.Lists.{reset_marks, push_left, lpush, push_right, rpush}
use raft_bitcask.Redis.Lists.Slots.{Elements-outside, Elements-snoc}
use raft_bitcask.Redis.Lists.Represents.{Describes, Deque, IsListKey, put_metadata-Deque}
use raft_bitcask.Redis.Lists.Find.{find_metadata-Finds}

-- Log bytes that are enough for a push.
abbrev pub push_room : Bytes → Bytes → ℕ
push_room key element = 83 + (2 * length key + length element)

module _ {store : Store} (laws : IsMap store) (now : ℕ → ℕ) (key : Bytes)
    (legal : IsListKey laws now key) where
  module _ (s : Service store) (m : KeyMap) (n t : ℕ) (element : Bytes)
      (small : length element ≤ max_record_size) where
    -- An element put under its number leaves the room of a write of the metadata.
    put_element-At :
        (version index : ℕ)
        → At laws now m (push_room key element + n) t s
        → Yields (db_put store now (list_internal_key key version index) element s) tt (
            At laws now
              (set_key m (list_internal_key key version index) (some element))
              (52 + length key + n)
              t)
    put_element-At version index here =
        let slot = list_internal_key key version index in
        let size = length-list_internal_key key version index in
        db_put-At laws now s m (52 + length key + n) t slot element
          (At-le laws now s m (push_room key element + n) t
            (record_room slot element + (52 + length key + n)) here (omega (arith, size)))
          (omega (arith, size), omega (arith, size, legal.1), small)

    module _ (md : RedisMetadata) (xs : List Bytes) (k : ℕ)
        (d : Describes key m md xs (k + 1)) where
      push_left-Deque :
          At laws now m (push_room key element + n) t s
          → Yields
              (push_left store now key element md s)
              (length xs + 1)
              (λ s'. Deque laws now key s' (element ∷ xs) n k)
      unfolding push_left
      push_left-Deque here =
          let back : pred_64 md.head + 1 ≡ md.head = omega (arith, d.left, d.tail, d.right) in
          let slot = list_internal_key key md.version (pred_64 md.head) in
          let m' = set_key m slot (some element) in
          let count : suc_32 md.size ≡ length xs + 1 = omega (arith, d.size, d.count) in
          let md' = record md { head = pred_64 md.head; size = suc_32 md.size } in
          let d' : Describes key m' md' (element ∷ xs) k = record {
            type = d.type;
            unlimited = d.unlimited;
            version = d.version;
            size = omega (arith, count);
            tail = omega (arith, d.tail, back);
            left = omega (arith, d.left, back);
            right = omega (arith, d.right);
            count = omega (arith, d.count);
            elements = (
              set_key_self m slot (some element),
              rw back (
                  Elements-outside key md.version m md.head xs (pred_64 md.head) (some element)
                    (omega arith) (omega (arith, d.tail, d.right))
                    (λ i low high same. omega (arith, back)) d.elements),
            );
          } in
          let (put, after) = put_element-At md.version (pred_64 md.head) here in
          let s' = (db_put store now slot element s).1 in
          let (done, q) =
            put_metadata-Deque laws now key legal s' m' n t md' (element ∷ xs) k d' after
              (omega arith) in
          rw (put, done) (ap ok count, q)

      push_right-Deque :
          At laws now m (push_room key element + n) t s
          → Yields
              (push_right store now key element md s)
              (length xs + 1)
              (λ s'. Deque laws now key s' (xs ++ element ∷ []) n k)
      unfolding push_right
      push_right-Deque here =
          let next : add_64 md.tail 1 ≡ md.tail + 1 = omega (arith, d.right) in
          let slot = list_internal_key key md.version md.tail in
          let m' = set_key m slot (some element) in
          let longer = length-append xs (element ∷ []) in
          let count : suc_32 md.size ≡ length xs + 1 = omega (arith, d.size, d.count) in
          let md' = record md { tail = add_64 md.tail 1; size = suc_32 md.size } in
          let kept =
            Elements-outside key md.version m md.head xs md.tail (some element)
              (omega (arith, d.right)) (omega (arith, d.tail, d.right))
              (λ i low high same. omega (arith, d.tail)) d.elements in
          let last : m' (list_internal_key key md.version (md.head + length xs)) ≡ some element =
            ap (λ i. m' (list_internal_key key md.version i)) (sym d.tail)
            ∙ set_key_self m slot (some element) in
          let d' : Describes key m' md' (xs ++ element ∷ []) k = record {
            type = d.type;
            unlimited = d.unlimited;
            version = d.version;
            size = omega (arith, count, longer);
            tail = omega (arith, d.tail, next, longer);
            left = omega (arith, d.left);
            right = omega (arith, d.right, next);
            count = omega (arith, d.count, longer);
            elements = Elements-snoc key md.version m' md.head xs element kept last;
          } in
          let (put, after) = put_element-At md.version md.tail here in
          let s' = (db_put store now slot element s).1 in
          let (done, q) =
            put_metadata-Deque laws now key legal s' m' n t md' (xs ++ element ∷ []) k d' after
              (omega (arith, longer)) in
          rw (put, done) (ap ok count, q)

  module _ (clock : (t : ℕ) → IsU64 (now t)) (s : Service store) (element : Bytes) (xs : List Bytes)
      (n k : ℕ) (small : length element ≤ max_record_size) where
    -- `lpush` to a list that the key holds, an empty one by being missing, returns the number of elements
    -- with the new one, and the key then holds the element in front of the list. This needs room in the
    -- log for the two records, a clock of 64 bits, and an operation left before an index or the size
    -- leaves its width.
    pub lpush-Deque :
        Deque laws now key s xs (push_room key element + n) (k + 1)
        → Yields
            (lpush store now key element s)
            (length xs + 1)
            (λ s'. Deque laws now key s' (element ∷ xs) n k)
    unfolding lpush
    lpush-Deque q =
        let found =
          find_metadata-Finds laws now key clock legal s xs (push_room key element + n) (k + 1) q in
        Yields-bind (find_metadata store now key DataType.list)
          (λ metadata. push_left store now key element (reset_marks metadata)) s found.md
          (length xs + 1) (At laws now found.map (push_room key element + n) found.readings)
          (λ s'. Deque laws now key s' (element ∷ xs) n k) found.run
          (λ s' here.
            push_left-Deque s' found.map n found.readings element small (reset_marks found.md) xs k
              found.reset here)

    -- `rpush` returns the same, and the key then holds the element behind the list, under the same
    -- conditions.
    pub rpush-Deque :
        Deque laws now key s xs (push_room key element + n) (k + 1)
        → Yields
            (rpush store now key element s)
            (length xs + 1)
            (λ s'. Deque laws now key s' (xs ++ element ∷ []) n k)
    unfolding rpush
    rpush-Deque q =
        let found =
          find_metadata-Finds laws now key clock legal s xs (push_room key element + n) (k + 1) q in
        Yields-bind (find_metadata store now key DataType.list)
          (λ metadata. push_right store now key element (reset_marks metadata)) s found.md
          (length xs + 1) (At laws now found.map (push_room key element + n) found.readings)
          (λ s'. Deque laws now key s' (xs ++ element ∷ []) n k) found.run
          (λ s' here.
            push_right-Deque s' found.map n found.readings element small (reset_marks found.md) xs k
              found.reset here)
