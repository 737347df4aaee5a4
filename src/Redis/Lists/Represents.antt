-- ===== src/Redis/Lists/Represents.antt =====
-- A list in the database as a sequence, and what the operations share.
use raft_bitcask.Prelude.{
  ℕ, ◌+◌, ◌≤◌, ◌<◌, ◌≡◌, ◌^◌, none, some, List, [], ◌∷◌, length, arith, Bool-cases, inl, inr, ◌==◌,
}
use raft_bitcask.Common.{Bytes, IsU64}
use raft_bitcask.Storage.DataFile.{max_record_size}
use raft_bitcask.Db.Represents.{KeyMap}
use raft_bitcask.Db.Represents.Operations.{set_key}
use raft_bitcask.Redis.DataType
use raft_bitcask.Redis.Metadata.{RedisMetadata, encode, IsValid, length-encode_le}
use raft_bitcask.Redis.KeyMaps.{set_key_self}
use raft_bitcask.Redis.Store.{Store, IsMap, record_room}
use raft_bitcask.Redis.Service.{Service, put_metadata, shrink}
use raft_bitcask.Redis.Service.Runs.{Yields, At, At-le, db_put-At, db_remove-At}
use raft_bitcask.Redis.Lists.Slots.{Elements, Elements-metadata}

-- The metadata describes the list, and `k` further operations keep within the widths of its fields.
pub record Describes (key : Bytes) (m : KeyMap) (md : RedisMetadata) (xs : List Bytes) (k : ℕ)
    : Type 0 where
  pub type : md.data_type ≡ DataType.list
  pub unlimited : md.expire ≡ 0
  pub version : IsU64 md.version
  pub size : md.size ≡ length xs
  pub tail : md.tail ≡ md.head + length xs
  pub left : k ≤ md.head
  pub right : md.tail + k < 2 ^ 64
  pub count : length xs + k < 2 ^ 32
  pub elements : Elements key md.version m md.head xs

-- The key holds the list: an empty one by being missing.
abbrev pub IsList : Bytes → KeyMap → List Bytes → ℕ → Type 0
IsList key m [] k = (m key ≡ none) × (k < 2 ^ 32)
IsList key m (x ∷ xs) k =
    (md : RedisMetadata) × (m key ≡ some (encode md)) × Describes key m md (x ∷ xs) k

pub Describes-IsValid :
    (key : Bytes) (m : KeyMap) (md : RedisMetadata) (xs : List Bytes) (k : ℕ)
    → Describes key m md xs k
    → IsValid md
Describes-IsValid key m md xs k d = record {
  expire = rw d.unlimited (omega arith);
  version = d.version;
  size = omega (arith, d.size, d.count);
  head = omega (arith, d.tail, d.right);
  tail = omega (arith, d.right);
  no_marks = λ other. absurd (other d.type);
}

-- A list with an element, whatever its first is.
pub IsList-some :
    (key : Bytes) (m : KeyMap) (xs : List Bytes) (k : ℕ)
    → IsList key m xs k
    → 0 < length xs
    → (md : RedisMetadata) × (m key ≡ some (encode md)) × Describes key m md xs k
IsList-some key m [] k l h = absurd (omega arith)
IsList-some key m (x ∷ xs) k l h = l

IsList-of :
    (key : Bytes) (m : KeyMap) (md : RedisMetadata) (xs : List Bytes) (k : ℕ)
    → m key ≡ some (encode md)
    → 0 < length xs
    → Describes key m md xs k
    → IsList key m xs k
IsList-of key m md [] k e h d = absurd (omega arith)
IsList-of key m md (x ∷ xs) k e h d = (md, e, d)

IsList-none :
    (key : Bytes) (m : KeyMap) (xs : List Bytes) (k : ℕ)
    → m key ≡ none
    → length xs ≡ 0
    → k < 2 ^ 32
    → IsList key m xs k
IsList-none key m [] k e h room = (e, room)
IsList-none key m (x ∷ xs) k e h room = absurd (omega (arith, h))

IsList-le :
    (key : Bytes) (m : KeyMap) (xs : List Bytes) (k k' : ℕ)
    → IsList key m xs k
    → k' ≤ k
    → IsList key m xs k'
IsList-le key m [] k k' (e, room) le = (e, omega (arith, room, le))
IsList-le key m (x ∷ xs) k k' (md, e, d) le = (
  md,
  e,
  record {
    type = d.type;
    unlimited = d.unlimited;
    version = d.version;
    size = d.size;
    tail = d.tail;
    left = omega (arith, d.left, le);
    right = omega (arith, d.right, le);
    count = omega (arith, d.count, le);
    elements = d.elements;
  },
)

module _ {store : Store} (laws : IsMap store) (now : ℕ → ℕ) (key : Bytes) where
  -- The service holds the list under the key, has room for `n` more bytes of log, and for `k` more
  -- operations on the list.
  pub record Deque (s : Service store) (xs : List Bytes) (n k : ℕ) : Type 0 where
    pub map : KeyMap
    pub readings : ℕ
    pub at : At laws now map n readings s
    pub list : IsList key map xs k

  -- A key that the lists can stand under.
  abbrev pub IsListKey : Type 0
  IsListKey = (0 < length key) × (length key + 16 ≤ max_record_size)

  module _ (legal : IsListKey) (s : Service store) (m : KeyMap) (n t : ℕ) (md : RedisMetadata)
      (xs : List Bytes) (k : ℕ) (d : Describes key m md xs k) where
    -- Its metadata written, the list stands under the key.
    pub put_metadata-Deque :
        At laws now m (52 + length key + n) t s
        → 0 < length xs
        → Yields (put_metadata store now key md s) tt (λ s'. Deque s' xs n k)
    unfolding put_metadata
    put_metadata-Deque here some_element =
        let size = length-encode_le md in
        let (done, after) =
          db_put-At laws now s m n t key (encode md)
            (At-le laws now s m (52 + length key + n) t (record_room key (encode md) + n) here
              (omega (arith, size)))
            (legal.0, omega (arith, legal.1), omega (arith, size)) in
        (
          done,
          record {
            map = set_key m key (some (encode md));
            readings = t;
            at = after;
            list =
                IsList-of key (set_key m key (some (encode md))) md xs k
                  (set_key_self m key (some (encode md))) some_element
                  (record {
                    type = d.type;
                    unlimited = d.unlimited;
                    version = d.version;
                    size = d.size;
                    tail = d.tail;
                    left = d.left;
                    right = d.right;
                    count = d.count;
                    elements = Elements-metadata key md.version m md.head xs _ d.elements;
                  });
          },
        )

    -- Without elements the key goes instead.
    pub shrink-Deque :
        At laws now m (52 + length key + n) t s
        → Yields (shrink store now key md s) tt (λ s'. Deque s' xs n k)
    unfolding shrink
    shrink-Deque here = elim (Bool-cases (md.size == 0)) [
      | inl is_empty ↦
          let size : length xs ≡ 0 = ground (arith, d.size) in
          let (done, after) =
            db_remove-At laws now s m n t key
              (At-le laws now s m (52 + length key + n) t (record_room key [] + n) here
                (omega arith))
              (legal.0, omega (arith, legal.1), omega arith) in
          rw is_empty (
            done,
            record {
              map = set_key m key none;
              readings = t;
              at = after;
              list =
                  IsList-none key (set_key m key none) xs k (set_key_self m key none) size
                    (omega (arith, d.count));
            },
          )
      | inr is_full ↦
          let size : 0 < length xs = ground (arith, d.size) in
          rw is_full (put_metadata-Deque here size)
    ]

  -- Less room, and fewer operations.
  pub Deque-le :
      (s : Service store) (xs : List Bytes) (n n' k k' : ℕ)
      → Deque s xs n k
      → n' ≤ n
      → k' ≤ k
      → Deque s xs n' k'
  Deque-le s xs n n' k k' q le le' = record {
    map = q.map;
    readings = q.readings;
    at = At-le laws now s q.map n q.readings n' q.at le;
    list = IsList-le key q.map xs k k' q.list le';
  }
