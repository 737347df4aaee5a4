-- ===== src/Codec/Record/Header.antt =====
-- The header that `encode` writes and `decode_log_record_header` reads.
use raft_bitcask.Prelude.{
  ℕ, ◌+◌, ◌*◌, ◌/◌, ◌^◌, ◌≤◌, ◌<◌, ◌≡◌, ap, ◌∙◌, bit_and, ◌++◌, append_assoc, length, length-append,
  drop-append_self, arith, ◌∷◌,
}
use raft_bitcask.Prelude.Bits.{bit_and_mask, bit_or-disjoint}
use raft_bitcask.Common.{Bytes, IsU32, ok}
use raft_bitcask.Codec.Varint.{encode_varint}
use raft_bitcask.Codec.Varint.Encoding.{encode_varint-groups, length-groups_le}
use raft_bitcask.Codec.Varint.RoundTrip.{decode-encode, encode_varint_shape}
use raft_bitcask.Codec.Crc.{crc32c}
use raft_bitcask.Codec.Crc.Extend.{extend-crc32c, crc32c-IsU32}
use raft_bitcask.Codec.Record.{
  LogRecord, LogRecordHeader, lengths, body, crc_field, read_crc, encode, get_crc,
  decode_log_record_header, get_log_record_crc,
}

read_crc-bytes :
    (b0 b1 b2 b3 : ℕ)
    → b0 < 256
    → b1 < 256
    → b2 < 256
    → b3 < 256
    → read_crc b0 b1 b2 b3 ≡ b0 + b1 * 2 ^ 8 + b2 * 2 ^ 16 + b3 * 2 ^ 24
unfolding read_crc
read_crc-bytes b0 b1 b2 b3 h0 h1 h2 h3 =
    rw
      (
        bit_or-disjoint 8 b0 b1 h0,
        bit_or-disjoint 16 (b0 + b1 * 2 ^ 8) b2 (omega arith),
        bit_or-disjoint 24 (b0 + b1 * 2 ^ 8 + b2 * 2 ^ 16) b3 (omega arith),
      )
      (omega arith)

-- The four checksum bytes are read back.
pub read_crc-crc_field :
    (crc : ℕ)
    → IsU32 crc
    → read_crc
        (bit_and crc 0xff)
        (bit_and (crc / 2 ^ 8) 0xff)
        (bit_and (crc / 2 ^ 16) 0xff)
        (bit_and (crc / 2 ^ 24) 0xff)
      ≡ crc
read_crc-crc_field crc h =
    rw
      (
        bit_and_mask 8 crc,
        bit_and_mask 8 (crc / 2 ^ 8),
        bit_and_mask 8 (crc / 2 ^ 16),
        bit_and_mask 8 (crc / 2 ^ 24),
      )
      (read_crc-bytes _ _ _ _ (omega arith) (omega arith) (omega arith) (omega arith) ∙ omega arith)

-- The bytes in front of key and value.
abbrev pub header_bytes : LogRecord → Bytes
header_bytes r = crc_field (get_crc r) ++ lengths r

abbrev pub header_of : LogRecord → LogRecordHeader
header_of r = record {
  crc = get_crc r;
  type = r.type;
  key_size = length r.key;
  value_size = length r.value;
}

abbrev pub IsWritable : LogRecord → Type 0
IsWritable r = IsU32 (length r.key) × IsU32 (length r.value)

decode-lengths :
    (r : LogRecord) (crc : ℕ) (rest : Bytes)
    → IsU32 crc
    → IsWritable r
    → decode_log_record_header (crc_field crc ++ (lengths r ++ rest))
      ≡ ok (
        record { crc = crc; type = r.type; key_size = length r.key; value_size = length r.value },
        length (crc_field crc ++ lengths r),
      )
unfolding decode_log_record_header crc_field lengths
decode-lengths r crc rest hc (hk, hv) =
    let k = encode_varint (length r.key) in
    let v = encode_varint (length r.value) in
    rw
      (
        append_assoc k v rest,
        decode-encode (length r.key) (v ++ rest) (omega arith),
        drop-append_self k (v ++ rest),
        decode-encode (length r.value) rest (omega arith),
      )
      (ground (arith, read_crc-crc_field crc hc, length-append k v))

-- The encoding of a record begins with its header, whatever is behind it.
pub encode-header : (r : LogRecord) → (encode r).0 ≡ header_bytes r ++ (r.key ++ r.value)
unfolding encode get_crc
encode-header r = append_assoc (crc_field (crc32c (body r))) (lengths r) (r.key ++ r.value)

-- `decode_log_record_header` reads the header that `encode` wrote, whatever follows it: the record's
-- checksum, type and lengths, and the number of bytes that it took.
pub decode-header :
    (r : LogRecord) (rest : Bytes)
    → IsWritable r
    → decode_log_record_header (header_bytes r ++ rest) ≡ ok (header_of r, length (header_bytes r))
unfolding get_crc
decode-header r rest h =
    rw (append_assoc (crc_field (get_crc r)) (lengths r) rest)
      (decode-lengths r (get_crc r) rest (crc32c-IsU32 (body r)) h)

varint_le_five : (n : ℕ) → IsU32 n → length (encode_varint n) ≤ 5
varint_le_five n h =
    rw (encode_varint-groups n (omega arith)) (length-groups_le 4 9 n (omega arith))

-- A header has 7 to 15 bytes, so the read buffer of 15 bytes holds it.
pub header_bytes_size :
    (r : LogRecord) → IsWritable r → (7 ≤ length (header_bytes r)) × (length (header_bytes r) ≤ 15)
unfolding crc_field lengths
header_bytes_size r (hk, hv) =
    let (bytes_k, some_k, most_k) = encode_varint_shape (length r.key) (omega arith) in
    let (bytes_v, some_v, most_v) = encode_varint_shape (length r.value) (omega arith) in
    omega (
      arith,
      length-append (encode_varint (length r.key)) (encode_varint (length r.value)),
      varint_le_five (length r.key) hk,
      varint_le_five (length r.value) hv,
    )

-- An encoded record is 7 to 15 bytes longer than key and value.
pub length-encode :
    (r : LogRecord)
    → IsWritable r
    → (7 + length r.key + length r.value ≤ length (encode r).0)
      × (length (encode r).0 ≤ 15 + length r.key + length r.value)
length-encode r fits =
    let (some, most) = header_bytes_size r fits in
    let size : length (encode r).0 ≡ length (header_bytes r) + (length r.key + length r.value) =
      ap length (encode-header r)
      ∙ omega
          (arith, length-append (header_bytes r) (r.key ++ r.value), length-append r.key r.value) in
    omega arith

-- Over the header behind the checksum, the key and the value in pieces, `get_log_record_crc`
-- computes the checksum of `get_crc`.
pub get_log_record_crc-lengths : (r : LogRecord) → get_log_record_crc r (lengths r) ≡ get_crc r
unfolding get_log_record_crc get_crc body
get_log_record_crc-lengths r =
    rw (extend-crc32c (lengths r) r.key, extend-crc32c (lengths r ++ r.key) r.value)
      (ap crc32c (append_assoc (lengths r) r.key r.value))

-- A decoded header took at least five bytes.
pub decode-takes :
    (buf : Bytes) (h : LogRecordHeader × ℕ) → decode_log_record_header buf ≡ ok h → 5 ≤ h.1
unfolding decode_log_record_header
decode-takes (b0 ∷ b1 ∷ b2 ∷ b3 ∷ type ∷ rest) (h, n) e = ground arith
decode-takes _ (h, n) e = cc
