-- ===== src/Codec/Crc/Extend.antt =====
-- `Extend` goes on where `Crc32c` stopped.
use raft_bitcask.Prelude.{
  ℕ, zero, suc, ◌^◌, ◌/◌, ◌≡◌, refl, bit_xor, bit_and, Bool, true, List, [], ◌∷◌, ◌++◌, ◌&&◌, ltb,
  get_or, arith,
}
use raft_bitcask.Prelude.Bits.{bit_xor_cancel, bit_xor_bound}
use raft_bitcask.Common.{Bytes, IsU32}
use raft_bitcask.Codec.Crc.{crc32_table, crc_byte, crc_loop, crc32c, extend}

crc_loop-append :
    (crc : ℕ) (front back : Bytes)
    → crc_loop crc (front ++ back) ≡ crc_loop (crc_loop crc front) back
unfolding crc_loop
crc_loop-append crc [] back = refl
crc_loop-append crc (byte ∷ front) back = crc_loop-append (crc_byte crc byte) front back

all_u32 : List ℕ → Bool
all_u32 [] = true
all_u32 (x ∷ xs) = ltb x (2 ^ 32) && all_u32 xs

all_u32_sound : (xs : List ℕ) (i : ℕ) → all_u32 xs ≡ true → IsU32 (get_or xs i 0)
unfolding all_u32
all_u32_sound [] i e = omega arith
all_u32_sound (x ∷ xs) zero e = ground arith
all_u32_sound (x ∷ xs) (suc i) e = all_u32_sound xs i (ground arith)

table_u32 : all_u32 crc32_table ≡ true
unfolding all_u32 crc32_table
table_u32 = refl

crc_byte-IsU32 : (crc byte : ℕ) → IsU32 crc → IsU32 (crc_byte crc byte)
unfolding crc_byte
crc_byte-IsU32 crc byte h =
    let i = bit_and (bit_xor crc byte) 0xff in
    bit_xor_bound 32 (crc / 2 ^ 8) (get_or crc32_table i 0) (omega arith)
      (all_u32_sound crc32_table i table_u32)

crc_loop-IsU32 : (crc : ℕ) (bytes : Bytes) → IsU32 crc → IsU32 (crc_loop crc bytes)
unfolding crc_loop
crc_loop-IsU32 crc [] h = h
crc_loop-IsU32 crc (byte ∷ rest) h =
    crc_loop-IsU32 (crc_byte crc byte) rest (crc_byte-IsU32 crc byte h)

-- The checksum of any bytes is a 32-bit number.
pub crc32c-IsU32 : (bytes : Bytes) → IsU32 (crc32c bytes)
unfolding crc32c
crc32c-IsU32 [] = omega arith
crc32c-IsU32 (byte ∷ rest) =
    bit_xor_bound 32 _ 0xffffffff (crc_loop-IsU32 0xffffffff (byte ∷ rest) (omega arith))
      (omega arith)

-- Also of no bytes the checksum is the register after the loop, inverted.
crc32c-loop : (bytes : Bytes) → crc32c bytes ≡ bit_xor (crc_loop 0xffffffff bytes) 0xffffffff
unfolding crc32c crc_loop
crc32c-loop [] = refl
crc32c-loop (byte ∷ rest) = refl

-- Extending the checksum of `front` by `back` is the checksum of both in one piece.
pub extend-crc32c : (front back : Bytes) → extend (crc32c front) back ≡ crc32c (front ++ back)
unfolding extend
extend-crc32c front back =
    let register = crc_loop 0xffffffff front in
    let back_again : bit_xor (bit_xor register 0xffffffff) 0xffffffff ≡ register =
      bit_xor_cancel 32 register 0xffffffff (crc_loop-IsU32 0xffffffff front (omega arith))
        (omega arith) in
    rw (crc32c-loop front, crc32c-loop (front ++ back), crc_loop-append) (rw back_again)
