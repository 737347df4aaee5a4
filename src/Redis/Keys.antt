-- ===== src/Redis/Keys.antt =====
-- The internal keys of include/bitcask/redis_data_structure.h, under which the parts of a value stand.
use raft_bitcask.Prelude.{
  ℕ, ◌+◌, ◌≡◌, ◌≢◌, refl, sym, ap, ◌∙◌, ◌++◌, length, take, drop, length-append, take-append_front,
  drop-append_front, drop-append_self, arith,
}
use raft_bitcask.Common.{Bytes, IsU64}
use raft_bitcask.Codec.LittleEndian.{push_le, length-push_le, push_le-injective}

-- `HashInternalKey::encode`
unfoldable pub hash_internal_key : Bytes → ℕ → Bytes → Bytes
hash_internal_key key version field = key ++ (push_le 8 0 version ++ field)

-- `SetInternalKey::encode`
unfoldable pub set_internal_key : Bytes → ℕ → Bytes → Bytes
set_internal_key key version member = key ++ (push_le 8 0 version ++ member)

-- `ListInternalKey::encode`
unfoldable pub list_internal_key : Bytes → ℕ → ℕ → Bytes
list_internal_key key version index = key ++ (push_le 8 0 version ++ push_le 8 0 index)

-- `ZSetInternalKey::encode`; the score is given by its 64 bits, as `memcpy` reads them.
unfoldable pub zset_internal_key : Bytes → ℕ → ℕ → Bytes → Bytes
zset_internal_key key version score_bits member =
    key ++ (push_le 8 0 version ++ (push_le 8 0 score_bits ++ member))

-- What stands behind key and version determines the internal key, and is determined by it.
tail-injective :
    (key : Bytes) (version : ℕ) (a b : Bytes)
    → key ++ (push_le 8 0 version ++ a) ≡ key ++ (push_le 8 0 version ++ b)
    → a ≡ b
tail-injective key version a b e =
    let tail : (c : Bytes) → drop 8 (drop (length key) (key ++ (push_le 8 0 version ++ c))) ≡ c =
      λ c.
        ap (drop 8) (drop-append_self key (push_le 8 0 version ++ c))
        ∙ drop-append_front 8 0 (push_le 8 0 version) c (length-push_le 8 0 version) in
    sym (tail a) ∙ ap (λ t. drop 8 (drop (length key) t)) e ∙ tail b

-- An internal key is longer than the key.
longer : (key : Bytes) (version : ℕ) (a : Bytes) → key ++ (push_le 8 0 version ++ a) ≢ key
longer key version a e = omega (
  arith,
  ap length e,
  length-append key (push_le 8 0 version ++ a),
  length-append (push_le 8 0 version) a,
  length-push_le 8 0 version,
)

-- Different fields of one hash have different internal keys, none of them the key of the hash.
pub hash_internal_key-injective :
    (key : Bytes) (version : ℕ) (a b : Bytes)
    → hash_internal_key key version a ≡ hash_internal_key key version b
    → a ≡ b
unfolding hash_internal_key
hash_internal_key-injective key version a b e = tail-injective key version a b e

pub hash_internal_key-ne :
    (key : Bytes) (version : ℕ) (a : Bytes) → hash_internal_key key version a ≢ key
unfolding hash_internal_key
hash_internal_key-ne key version a = longer key version a

pub set-eq-hash :
    (key : Bytes) (version : ℕ) (a : Bytes)
    → set_internal_key key version a ≡ hash_internal_key key version a
unfolding hash_internal_key set_internal_key
set-eq-hash key version a = refl

pub list_internal_key-injective :
    (key : Bytes) (version i j : ℕ)
    → IsU64 i
    → IsU64 j
    → list_internal_key key version i ≡ list_internal_key key version j
    → i ≡ j
unfolding list_internal_key
list_internal_key-injective key version i j hi hj e =
    push_le-injective i j hi hj (tail-injective key version (push_le 8 0 i) (push_le 8 0 j) e)

pub list_internal_key-ne : (key : Bytes) (version i : ℕ) → list_internal_key key version i ≢ key
unfolding list_internal_key
list_internal_key-ne key version i = longer key version (push_le 8 0 i)

pub length-list_internal_key :
    (key : Bytes) (version i : ℕ) → length (list_internal_key key version i) ≡ length key + 16
unfolding list_internal_key
length-list_internal_key key version i = omega (
  arith,
  length-append key (push_le 8 0 version ++ push_le 8 0 i),
  length-append (push_le 8 0 version) (push_le 8 0 i),
  length-push_le 8 0 version,
  length-push_le 8 0 i,
)

pub length-hash_internal_key :
    (key : Bytes) (version : ℕ) (field : Bytes)
    → length (hash_internal_key key version field) ≡ length key + (8 + length field)
unfolding hash_internal_key
length-hash_internal_key key version field = omega (
  arith,
  length-append key (push_le 8 0 version ++ field),
  length-append (push_le 8 0 version) field,
  length-push_le 8 0 version,
)

pub hash_internal_key_version :
    (key : Bytes) (v w : ℕ) (a b : Bytes)
    → IsU64 v
    → IsU64 w
    → hash_internal_key key v a ≡ hash_internal_key key w b
    → v ≡ w
unfolding hash_internal_key
hash_internal_key_version key v w a b hv hw e =
    let version : (u : ℕ) (c : Bytes)
        → take 8 (drop (length key) (key ++ (push_le 8 0 u ++ c))) ≡ push_le 8 0 u =
      λ u c.
        ap (take 8) (drop-append_self key (push_le 8 0 u ++ c))
        ∙ take-append_front 8 (push_le 8 0 u) c (length-push_le 8 0 u) in
    push_le-injective v w hv hw
      (sym (version v a) ∙ ap (λ t. take 8 (drop (length key) t)) e ∙ version w b)
