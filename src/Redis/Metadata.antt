-- ===== src/Redis/Metadata.antt =====
-- `RedisMetadata` of include/bitcask/redis_data_structure.h, with its byte format.
use raft_bitcask.Prelude.{
  ℕ, ◌%◌, ◌^◌, ◌≤◌, ◌≡◌, ◌≢◌, ap, ◌∙◌, ◌&&◌, [], ◌∷◌, ◌++◌, length, take, drop, ltb, leb, ◌==◌,
  if◌then◌else◌, arith, true, false, Bool-cases, inl, inr, sym, length-append, append_assoc,
  take_all, take-append_front, drop-append_front,
}
use raft_bitcask.Common.{Bytes, IsU32, IsU64, Result, ok, throw, bitcask_exception}
use raft_bitcask.Codec.LittleEndian.{
  push_le, or_le, or_le-push_le, or_le-push_le_four, length-push_le,
}
use raft_bitcask.Redis.DataType
use raft_bitcask.Redis.DataType.{RedisDataType}

pub record RedisMetadata : Type 0 where
  pub data_type : RedisDataType
  pub expire : ℕ
  pub version : ℕ
  pub size : ℕ
  pub head : ℕ
  pub tail : ℕ

-- Head and tail, for lists only.
unfoldable pub encode_marks : RedisMetadata → Bytes
encode_marks m =
    if m.data_type == DataType.list then push_le 8 0 m.head ++ push_le 8 0 m.tail else []

-- `RedisMetadata::encode`
unfoldable pub encode : RedisMetadata → Bytes
unfolding encode_marks
encode m =
    m.data_type
    ∷ (push_le 8 0 m.expire ++ (push_le 8 0 m.version ++ (push_le 4 0 m.size ++ encode_marks m)))

-- The eight bytes at an offset, if head and tail are there.
unfoldable pub decode_mark : RedisDataType → ℕ → Bytes → ℕ
decode_mark data_type offset rest =
    if (data_type == DataType.list) && leb 36 (length rest)
    then or_le 0 0 (take 8 (drop offset rest))
    else 0

-- `RedisMetadata::decode`; offsets count from the second byte.
unfoldable pub decode : Bytes → Result RedisMetadata
unfolding decode_mark
decode [] = throw (bitcask_exception "Invalid metadata size")
decode (data_type ∷ rest) =
    if ltb (length rest) 20
    then throw (bitcask_exception "Invalid metadata size")
    else ok (record {
      data_type = data_type;
      expire = or_le 0 0 (take 8 rest);
      version = or_le 0 0 (take 8 (drop 8 rest));
      size = or_le 0 0 (take 4 (drop 16 rest)) % 2 ^ 32;
      head = decode_mark data_type 20 rest;
      tail = decode_mark data_type 28 rest;
    })

-- Metadata that its bytes determine: head and tail are 0 but for a list.
pub record IsValid (m : RedisMetadata) : Type 0 where
  pub expire : IsU64 m.expire
  pub version : IsU64 m.version
  pub size : IsU32 m.size
  pub head : IsU64 m.head
  pub tail : IsU64 m.tail
  pub no_marks : m.data_type ≢ DataType.list → (m.head ≡ 0) × (m.tail ≡ 0)

-- What `decode_mark` finds in a list's metadata.
decode_mark-list :
    (n offset : ℕ) (rest : Bytes)
    → length rest ≡ 36
    → take 8 (drop offset rest) ≡ push_le 8 0 n
    → IsU64 n
    → decode_mark DataType.list offset rest ≡ n
unfolding decode_mark
decode_mark-list n offset rest long here fits =
    let whole : leb 36 (length rest) ≡ true = ground arith in
    rw (whole, here) (or_le-push_le n fits)

decode_mark-other :
    (data_type offset : ℕ) (rest : Bytes)
    → data_type ≢ DataType.list
    → decode_mark data_type offset rest ≡ 0
unfolding decode_mark
decode_mark-other data_type offset rest other = ground arith

-- The marks, with what stands in front of them in the bytes.
decode_mark-encode_marks :
    (m : RedisMetadata) (front : Bytes)
    → length front ≡ 20
    → IsValid m
    → (decode_mark m.data_type 20 (front ++ encode_marks m) ≡ m.head)
      × (decode_mark m.data_type 28 (front ++ encode_marks m) ≡ m.tail)
unfolding encode_marks
decode_mark-encode_marks m front size v = elim (Bool-cases (m.data_type == DataType.list)) [
  | inl is_list ↦
      let h = push_le 8 0 m.head in
      let t = push_le 8 0 m.tail in
      let type : m.data_type ≡ DataType.list = ground arith in
      let long : length (front ++ (h ++ t)) ≡ 36 = omega (
        arith,
        length-append front (h ++ t),
        length-append h t,
        length-push_le 8 0 m.head,
        length-push_le 8 0 m.tail,
      ) in
      let head_at : take 8 (drop 20 (front ++ (h ++ t))) ≡ h =
        ap (take 8) (drop-append_front 20 0 front (h ++ t) size)
        ∙ take-append_front 8 h t (length-push_le 8 0 m.head) in
      let tail_at : take 8 (drop 28 (front ++ (h ++ t))) ≡ t =
        ap (take 8) (
          drop-append_front 20 8 front (h ++ t) size
          ∙ drop-append_front 8 0 h t (length-push_le 8 0 m.head))
        ∙ take_all 8 t (omega (arith, length-push_le 8 0 m.tail)) in
      simp type (
        decode_mark-list m.head 20 (front ++ (h ++ t)) long head_at v.head,
        decode_mark-list m.tail 28 (front ++ (h ++ t)) long tail_at v.tail,
      )
  | inr other ↦
      let type : m.data_type ≢ DataType.list = ground arith in
      let (no_head, no_tail) = v.no_marks type in
      (
        decode_mark-other m.data_type 20 _ type ∙ sym no_head,
        decode_mark-other m.data_type 28 _ type ∙ sym no_tail,
      )
]

-- `decode` reads back the metadata that `encode` wrote, where each field is within its width, and head
-- and tail are 0 but for a list.
pub decode-encode_metadata : (m : RedisMetadata) → IsValid m → decode (encode m) ≡ ok m
unfolding decode encode
decode-encode_metadata m v =
    let e = push_le 8 0 m.expire in
    let w = push_le 8 0 m.version in
    let z = push_le 4 0 m.size in
    let marks = encode_marks m in
    let front = e ++ (w ++ z) in
    let rest : e ++ (w ++ (z ++ marks)) ≡ front ++ marks =
      ap (λ t. e ++ t) (sym (append_assoc w z marks)) ∙ sym (append_assoc e (w ++ z) marks) in
    let size : length front ≡ 20 = omega (
      arith,
      length-append e (w ++ z),
      length-append w z,
      length-push_le 8 0 m.expire,
      length-push_le 8 0 m.version,
      length-push_le 4 0 m.size,
    ) in
    let all = e ++ (w ++ (z ++ marks)) in
    let enough : ltb (length all) 20 ≡ false =
      ground (arith, ap length rest, length-append front marks) in
    let expire : or_le 0 0 (take 8 all) ≡ m.expire =
      ap (or_le 0 0) (take-append_front 8 e _ (length-push_le 8 0 m.expire))
      ∙ or_le-push_le m.expire v.expire in
    let second : drop 8 all ≡ w ++ (z ++ marks) =
      drop-append_front 8 0 e _ (length-push_le 8 0 m.expire) in
    let version : or_le 0 0 (take 8 (drop 8 all)) ≡ m.version =
      ap (or_le 0 0) (ap (take 8) second ∙ take-append_front 8 w _ (length-push_le 8 0 m.version))
      ∙ or_le-push_le m.version v.version in
    let third : drop 16 all ≡ z ++ marks =
      drop-append_front 8 8 e _ (length-push_le 8 0 m.expire)
      ∙ drop-append_front 8 0 w _ (length-push_le 8 0 m.version) in
    let count : or_le 0 0 (take 4 (drop 16 all)) % 2 ^ 32 ≡ m.size =
      ap (λ (n : ℕ). n % 2 ^ 32)
        (ap (or_le 0 0)
            (ap (take 4) third ∙ take-append_front 4 z marks (length-push_le 4 0 m.size))
          ∙ or_le-push_le_four m.size v.size)
      ∙ omega (arith, v.size) in
    let (head, tail) = decode_mark-encode_marks m front size v in
    rw (
      enough,
      expire,
      version,
      count,
      ap (decode_mark m.data_type 20) rest ∙ head,
      ap (decode_mark m.data_type 28) rest ∙ tail,
    )

pub length-encode_le : (m : RedisMetadata) → length (encode m) ≤ 37
unfolding encode encode_marks
length-encode_le m = elim (Bool-cases (m.data_type == DataType.list)) [
  | inl is_list ↦ rw is_list (
      omega (
        arith,
        length-append (push_le 8 0 m.expire) (
            push_le 8 0 m.version
            ++ (push_le 4 0 m.size ++ (push_le 8 0 m.head ++ push_le 8 0 m.tail))),
        length-append (push_le 8 0 m.version)
            (push_le 4 0 m.size ++ (push_le 8 0 m.head ++ push_le 8 0 m.tail)),
        length-append (push_le 4 0 m.size) (push_le 8 0 m.head ++ push_le 8 0 m.tail),
        length-append (push_le 8 0 m.head) (push_le 8 0 m.tail),
        length-push_le 8 0 m.expire,
        length-push_le 8 0 m.version,
        length-push_le 4 0 m.size,
        length-push_le 8 0 m.head,
        length-push_le 8 0 m.tail,
      ))
  | inr other ↦ rw other (
      omega (
        arith,
        length-append (push_le 8 0 m.expire) (push_le 8 0 m.version ++ (push_le 4 0 m.size ++ [])),
        length-append (push_le 8 0 m.version) (push_le 4 0 m.size ++ []),
        length-append (push_le 4 0 m.size) [],
        length-push_le 8 0 m.expire,
        length-push_le 8 0 m.version,
        length-push_le 4 0 m.size,
      ))
]
