-- ===== src/Tests/Codec.antt =====
-- Runs of the byte formats, and their theorems at concrete inputs.
use raft_bitcask.Prelude.{◌≡◌, ◌≢◌, All, refl, [], ◌∷◌, ◌++◌, length, arith, get_or}
use raft_bitcask.Common.{Bytes, IsByte, ok, normal}
use raft_bitcask.Codec.Varint.{encode_varint, decode_varint, decode_varint_loop}
use raft_bitcask.Codec.Varint.RoundTrip.{decode-encode}
use raft_bitcask.Codec.Crc.{crc_loop, crc_byte, crc32c, crc32_table}
use raft_bitcask.Codec.Crc.Polynomial.{crc32_table-divide, divide_bits}
use raft_bitcask.Codec.Record.{LogRecord, LogRecordPos}
use raft_bitcask.Codec.LittleEndian.{number_of}
use raft_bitcask.Codec.SeqKey.{
  log_record_key_with_seq, parse_log_record_key, parse-with_seq, long_key_misread,
}

abbrev hello : LogRecord
hello = record { key = 104 ∷ 105 ∷ []; value = 1 ∷ 2 ∷ 3 ∷ []; type = normal }

abbrev ending : Bytes
ending = b's' ∷ b'e' ∷ b'r' ∷ b':' ∷ b'0' ∷ b'0' ∷ b'0' ∷ b'1' ∷ []

decode-encode_example :
    decode_varint (encode_varint 300 ++ (9 ∷ [])) ≡ ok (300, length (encode_varint 300))
decode-encode_example = decode-encode 300 (9 ∷ []) (omega arith)

padded : decode_varint (0x80 ∷ 0x00 ∷ 7 ∷ []) ≡ ok (0, 2)
unfolding decode_varint decode_varint_loop
padded = refl

-- The check value of CRC-32: the checksum of "123456789".
check_value : crc32c (49 ∷ 50 ∷ 51 ∷ 52 ∷ 53 ∷ 54 ∷ 55 ∷ 56 ∷ 57 ∷ []) ≡ 0xcbf43926
unfolding crc32c crc_loop crc_byte crc32_table
check_value = refl

crc32_table-divide_example : get_or crc32_table 255 0 ≡ divide_bits 8 255
crc32_table-divide_example = crc32_table-divide 255 (omega arith)

abbrev somewhere : LogRecordPos
somewhere = record { fid = 3; offset = 70000; size = 12 }

parse-with_seq_example : parse_log_record_key (log_record_key_with_seq (104 ∷ []) 7) ≡ (104 ∷ [], 7)
parse-with_seq_example = parse-with_seq (104 ∷ []) 7 (omega arith) (omega arith)

ending-IsByte : All IsByte ending
ending-IsByte = (
  omega arith,
  (
    omega arith,
    (omega arith, (omega arith, (omega arith, (omega arith, (omega arith, (omega arith, tt)))))),
  ),
)

ending_nonzero : number_of ending ≢ 0
unfolding number_of
ending_nonzero e = omega (arith, e)

long_key_misread_example :
    parse_log_record_key (log_record_key_with_seq ((b'u' ∷ []) ++ ending) 0)
    ≡ (b'u' ∷ [], number_of ending)
long_key_misread_example =
    long_key_misread (b'u' ∷ []) ending (omega arith) ending-IsByte ending_nonzero
