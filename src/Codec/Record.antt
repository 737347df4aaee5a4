-- ===== src/Codec/Record.antt =====
-- `LogRecord`, `LogRecordPos` and `LogRecordHeader` of include/bitcask/log_record.h, and the
-- functions on them in src/log_record.cpp.
pub mod Header
pub mod Pos
pub mod Size
use mathlib.Core.Logic.{dite}
use mathlib.Core.WellFounded.{Acc}
use native.Mathlib.Decide.{dec_le}
use raft_bitcask.Prelude.{
  ℕ, ◌+◌, ◌/◌, ◌%◌, ◌^◌, ◌*◌, ◌<◌, ◌≤◌, bit_and, bit_or, [], ◌∷◌, ◌++◌, length, drop,
}
use raft_bitcask.Prelude.Order.{lt_wf}
use raft_bitcask.Common.{Bytes, LogRecordType, Result, ok, throw, bitcask_exception, ◌>>=◌}
use raft_bitcask.Codec.Varint.{encode_varint, decode_varint, shift_shrinks}
use raft_bitcask.Codec.Crc.{crc32c, extend}

pub record LogRecordPos : Type 0 where
  pub fid : ℕ
  pub offset : ℕ
  pub size : ℕ

pub record LogRecord : Type 0 where
  pub key : Bytes
  pub value : Bytes
  pub type : LogRecordType

pub record LogRecordHeader : Type 0 where
  pub crc : ℕ
  pub type : LogRecordType
  pub key_size : ℕ
  pub value_size : ℕ

-- `LogRecordPos::encode`
pub encode_pos : LogRecordPos → Bytes
encode_pos p = encode_varint p.fid ++ (encode_varint p.offset ++ encode_varint p.size)

-- `LogRecordPos::decode`; `ptr` and `remaining` are the part of the buffer that is left.
pub decode_pos : Bytes → Result LogRecordPos
decode_pos bytes = do
  (fid_val, fid_len) ← decode_varint bytes
  (offset_val, offset_len) ← decode_varint (drop fid_len bytes)
  (size_val, size_len) ← decode_varint (drop offset_len (drop fid_len bytes))
  ok (record { fid = fid_val % 2 ^ 32; offset = offset_val; size = size_val % 2 ^ 32 })

-- The type and the two lengths.
pub lengths : LogRecord → Bytes
lengths r = r.type ∷ (encode_varint (length r.key) ++ encode_varint (length r.value))

-- All of a record behind its checksum.
pub body : LogRecord → Bytes
unfolding lengths
body r = lengths r ++ (r.key ++ r.value)

-- `result[0 .. 4)`, little-endian.
pub crc_field : ℕ → Bytes
crc_field crc =
    bit_and crc 0xff
    ∷ bit_and (crc / 2 ^ 8) 0xff
    ∷ bit_and (crc / 2 ^ 16) 0xff
    ∷ bit_and (crc / 2 ^ 24) 0xff
    ∷ []

-- `LogRecord::encode`
pub encode : LogRecord → Bytes × ℕ
unfolding body crc_field
encode r = let result = crc_field (crc32c (body r)) ++ body r in (result, length result)

-- `LogRecord::get_crc`, which builds the same bytes in a buffer of its own.
pub get_crc : LogRecord → ℕ
unfolding body
get_crc r = crc32c (body r)

-- `while (len >= 0x80) { size++; len >>= 7; } size++;`
size_loop : ℕ → (len : ℕ) → Acc ◌<◌ len → ℕ
size_loop size len (Acc.intro _ smaller) =
    dite (dec_le 0x80 len)
      (λ more. size_loop (size + 1) (len / 128) (smaller _ (shift_shrinks len more)))
      (λ _. size + 1)

-- `LogRecord::encoded_size`
pub encoded_size : LogRecord → ℕ
encoded_size r =
    let with_key = size_loop (4 + 1) (length r.key) (lt_wf.apply (length r.key)) in
    let with_value = size_loop with_key (length r.value) (lt_wf.apply (length r.value)) in
    with_value + (length r.key + length r.value)

-- `data[0] | (data[1] << 8) | (data[2] << 16) | (data[3] << 24)`, as a `uint32_t`.
pub read_crc : ℕ → ℕ → ℕ → ℕ → ℕ
read_crc b0 b1 b2 b3 = bit_or (bit_or (bit_or b0 (b1 * 2 ^ 8)) (b2 * 2 ^ 16)) (b3 * 2 ^ 24) % 2 ^ 32

-- `decode_log_record_header`; the first clause is the case of five bytes at least.
pub decode_log_record_header : Bytes → Result (LogRecordHeader × ℕ)
decode_log_record_header (b0 ∷ b1 ∷ b2 ∷ b3 ∷ type ∷ rest) = do
  (key_size, key_len) ← decode_varint rest
  (value_size, value_len) ← decode_varint (drop key_len rest)
  ok (
    record {
      crc = read_crc b0 b1 b2 b3;
      type = type;
      key_size = key_size % 2 ^ 32;
      value_size = value_size % 2 ^ 32;
    },
    5 + key_len + value_len,
  )
decode_log_record_header _ = throw (bitcask_exception "Invalid header data")

-- `get_log_record_crc`
pub get_log_record_crc : LogRecord → Bytes → ℕ
get_log_record_crc r header = extend (extend (crc32c header) r.key) r.value
