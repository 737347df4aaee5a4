-- ===== src/Redis/Parts/Represents.antt =====
-- A hash or a set in the database as fields with values.
use raft_bitcask.Prelude.{
  ℕ, ◌+◌, ◌≤◌, ◌<◌, ◌≡◌, ◌≢◌, ◌^◌, refl, sym, ap, ◌∙◌, true, Bool-cases, inl, inr, Option, none,
  some, [], ◌∷◌, length, arith, if◌then◌else◌,
}
use raft_bitcask.Common.{Bytes, IsU64}
use raft_bitcask.Index.KeyOrder.{key_eq, key_eq_self, eq_of_key_eq}
use raft_bitcask.Db.Represents.{KeyMap}
use raft_bitcask.Db.Represents.Operations.{set_key}
use raft_bitcask.Redis.DataType.{RedisDataType}
use raft_bitcask.Redis.Metadata.{RedisMetadata, encode, IsValid}
use raft_bitcask.Redis.Keys.{
  hash_internal_key, hash_internal_key-injective, hash_internal_key-ne, hash_internal_key_version,
}
use raft_bitcask.Redis.KeyMaps.{set_key_self, set_key_other}
use raft_bitcask.Redis.Fields.{
  Fields, value_of, Distinct, insert_field, delete_field, value_of-insert_field,
  value_of-delete_field, length-insert_field, length-delete_field, insert_field-Distinct,
  delete_field-Distinct,
}
use raft_bitcask.Redis.Options.{is_some}
use raft_bitcask.Redis.Store.{Store, IsMap}
use raft_bitcask.Redis.Service.{Service}
use raft_bitcask.Redis.Service.Runs.{At}

-- The fields of a version stand in the map.
abbrev pub HasParts : Bytes → ℕ → KeyMap → Fields → Type 0
HasParts key version m h = (f : Bytes) → m (hash_internal_key key version f) ≡ value_of h f

-- The metadata describes the fields, and `k` further operations keep the size within its width.
pub record Describes (data_type : RedisDataType) (key : Bytes) (m : KeyMap) (md : RedisMetadata)
    (h : Fields) (k : ℕ) : Type 0 where
  pub type : md.data_type ≡ data_type
  pub unlimited : md.expire ≡ 0
  pub version : IsU64 md.version
  pub marks : (md.head ≡ 0) × (md.tail ≡ 0)
  pub size : md.size ≡ length h
  pub count : length h + k < 2 ^ 32
  pub distinct : Distinct h
  pub parts : HasParts key md.version m h

-- The key holds the fields: none by being missing.
abbrev pub IsParts : RedisDataType → Bytes → KeyMap → Fields → ℕ → Type 0
IsParts data_type key m [] k = (m key ≡ none) × (k < 2 ^ 32)
IsParts data_type key m (x ∷ xs) k =
    (md : RedisMetadata) × (m key ≡ some (encode md)) × Describes data_type key m md (x ∷ xs) k

pub IsParts-of :
    (data_type : RedisDataType) (key : Bytes) (m : KeyMap) (md : RedisMetadata) (h : Fields) (k : ℕ)
    → m key ≡ some (encode md)
    → 0 < length h
    → Describes data_type key m md h k
    → IsParts data_type key m h k
IsParts-of data_type key m md [] k e some_part d = absurd (omega arith)
IsParts-of data_type key m md (x ∷ xs) k e some_part d = (md, e, d)

pub IsParts-none :
    (data_type : RedisDataType) (key : Bytes) (m : KeyMap) (h : Fields) (k : ℕ)
    → m key ≡ none
    → length h ≡ 0
    → k < 2 ^ 32
    → IsParts data_type key m h k
IsParts-none data_type key m [] k e no_part room = (e, room)
IsParts-none data_type key m (x ∷ xs) k e no_part room = absurd (omega (arith, no_part))

pub Describes-IsValid :
    (data_type : RedisDataType) (key : Bytes) (m : KeyMap) (md : RedisMetadata) (h : Fields) (k : ℕ)
    → Describes data_type key m md h k
    → IsValid md
Describes-IsValid data_type key m md h k d = record {
  expire = rw d.unlimited (omega arith);
  version = d.version;
  size = omega (arith, d.size, d.count);
  head = omega (arith, d.marks.0);
  tail = omega (arith, d.marks.1);
  no_marks = λ other. d.marks;
}

-- No version from a time on is in use.
abbrev pub IsUnused : Bytes → KeyMap → ℕ → Type 0
IsUnused key m time =
    (version : ℕ)
    → IsU64 version
    → time ≤ version
    → (f : Bytes) → m (hash_internal_key key version f) ≡ none

-- A change of one part.
pub HasParts-set_key :
    (key : Bytes) (version : ℕ) (m : KeyMap) (h h' : Fields) (f : Bytes) (value : Option Bytes)
    → ((g : Bytes) → value_of h' g ≡ (if key_eq f g then value else value_of h g))
    → HasParts key version m h
    → HasParts key version (set_key m (hash_internal_key key version f) value) h'
HasParts-set_key key version m h h' f value change parts g = elim (Bool-cases (key_eq f g)) [
  | inl same ↦
      let slot = ap (hash_internal_key key version) (eq_of_key_eq f g same) in
      ap (set_key m (hash_internal_key key version f) value) (sym slot)
      ∙ set_key_self m (hash_internal_key key version f) value
      ∙ sym (change g ∙ rw same refl)
  | inr other ↦
      let apart : f ≢ g =
        λ e. let same : key_eq f g ≡ true = ap (key_eq f) (sym e) ∙ key_eq_self f in ground arith in
      set_key_other m (hash_internal_key key version f) (hash_internal_key key version g) value
        (λ e. apart (hash_internal_key-injective key version f g e))
      ∙ parts g
      ∙ sym (change g ∙ rw other refl)
]

pub HasParts-metadata :
    (key : Bytes) (version : ℕ) (m : KeyMap) (h : Fields) (value : Option Bytes)
    → HasParts key version m h
    → HasParts key version (set_key m key value) h
HasParts-metadata key version m h value parts f =
    set_key_other m key (hash_internal_key key version f) value
      (λ e. hash_internal_key-ne key version f (sym e))
    ∙ parts f

pub IsUnused-metadata :
    (key : Bytes) (m : KeyMap) (time : ℕ) (value : Option Bytes)
    → IsUnused key m time
    → IsUnused key (set_key m key value) time
IsUnused-metadata key m time value unused version fits late f =
    set_key_other m key (hash_internal_key key version f) value
      (λ e. hash_internal_key-ne key version f (sym e))
    ∙ unused version fits late f

-- A change of a part of an older version.
pub IsUnused-part :
    (key : Bytes) (m : KeyMap) (time version : ℕ) (f : Bytes) (value : Option Bytes)
    → IsU64 version
    → version < time
    → IsUnused key m time
    → IsUnused key (set_key m (hash_internal_key key version f) value) time
IsUnused-part key m time version f value fits early unused version' fits' late f' =
    set_key_other m (hash_internal_key key version f) (hash_internal_key key version' f') value
      (λ e.
        omega
          (arith, early, late, hash_internal_key_version key version version' f f' fits fits' e))
    ∙ unused version' fits' late f'

pub Describes-le :
    (data_type : RedisDataType) (key : Bytes) (m : KeyMap) (md : RedisMetadata) (h : Fields)
    (k k' : ℕ)
    → Describes data_type key m md h k
    → k' ≤ k
    → Describes data_type key m md h k'
Describes-le data_type key m md h k k' d le = record {
  type = d.type;
  unlimited = d.unlimited;
  version = d.version;
  marks = d.marks;
  size = d.size;
  count = omega (arith, d.count, le);
  distinct = d.distinct;
  parts = d.parts;
}

-- The metadata behind a change of one part.
pub insert-Describes :
    (data_type : RedisDataType) (key : Bytes) (m : KeyMap) (md : RedisMetadata) (h : Fields)
    (k size : ℕ) (f v : Bytes)
    → size ≡ length (insert_field f v h)
    → Describes data_type key m md h (k + 1)
    → Describes data_type key
        (set_key m (hash_internal_key key md.version f) (some v))
        (record md { size = size })
        (insert_field f v h)
        k
insert-Describes data_type key m md h k size f v whole d = record {
  type = d.type;
  unlimited = d.unlimited;
  version = d.version;
  marks = d.marks;
  size = whole;
  count = ground (arith, d.count, length-insert_field f v h);
  distinct = insert_field-Distinct f v h d.distinct;
  parts =
      HasParts-set_key key md.version m h (insert_field f v h) f (some v)
        (value_of-insert_field f v h) d.parts;
}

pub delete-Describes :
    (data_type : RedisDataType) (key : Bytes) (m : KeyMap) (md : RedisMetadata) (h : Fields)
    (k size : ℕ) (f : Bytes)
    → size + 1 ≡ length h
    → is_some (value_of h f) ≡ true
    → Describes data_type key m md h (k + 1)
    → Describes data_type key
        (set_key m (hash_internal_key key md.version f) none)
        (record md { size = size })
        (delete_field f h)
        k
delete-Describes data_type key m md h k size f whole there d =
    let fewer = length-delete_field f h there in
    record {
      type = d.type;
      unlimited = d.unlimited;
      version = d.version;
      marks = d.marks;
      size = omega (arith, whole, fewer);
      count = omega (arith, d.count, fewer);
      distinct = delete_field-Distinct f h d.distinct;
      parts =
          HasParts-set_key key md.version m h (delete_field f h) f none
            (λ g. value_of-delete_field f h g d.distinct) d.parts;
    }

module _ {store : Store} (laws : IsMap store) (now : ℕ → ℕ) (limit : ℕ) (data_type : RedisDataType)
    (key : Bytes) where
  -- The service holds the fields under the key, has room for `n` more bytes of log, and for `k` more
  -- operations on them, while the clock is within its limit.
  pub record Holds (s : Service store) (h : Fields) (n k : ℕ) : Type 0 where
    pub map : KeyMap
    pub readings : ℕ
    pub at : At laws now map n readings s
    pub parts : IsParts data_type key map h k
    pub unused : IsUnused key map (now readings)
    pub clock : readings + k ≤ limit
