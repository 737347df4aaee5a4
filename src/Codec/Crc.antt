-- ===== src/Codec/Crc.antt =====
-- The checksum of src/log_record.cpp, in the build without `USE_ZLIB_CRC32`.
mod Table
pub mod Polynomial
pub mod Extend
unfoldable pub use Table.{crc32_table}
use raft_bitcask.Prelude.{ℕ, ◌/◌, ◌^◌, bit_and, bit_xor, [], ◌∷◌, get_or}
use raft_bitcask.Common.{Bytes}

-- `crc = (crc >> 8) ^ crc32_table[(crc ^ byte) & 0xFF]`
unfoldable pub crc_byte : ℕ → ℕ → ℕ
crc_byte crc byte = bit_xor (crc / 2 ^ 8) (get_or crc32_table (bit_and (bit_xor crc byte) 0xff) 0)

unfoldable pub crc_loop : ℕ → Bytes → ℕ
crc_loop crc [] = crc
crc_loop crc (byte ∷ rest) = crc_loop (crc_byte crc byte) rest

-- `crc32c::Crc32c`
unfoldable pub crc32c : Bytes → ℕ
crc32c [] = 0
crc32c (byte ∷ rest) = bit_xor (crc_loop 0xffffffff (byte ∷ rest)) 0xffffffff

-- `crc32c::Extend`
unfoldable pub extend : ℕ → Bytes → ℕ
extend crc bytes = bit_xor (crc_loop (bit_xor crc 0xffffffff) bytes) 0xffffffff
