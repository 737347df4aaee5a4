-- ===== src/Codec/Crc/Polynomial.antt =====
-- The table against the polynomial that it stands for.
use raft_bitcask.Prelude.{
  ℕ, zero, suc, ◌/◌, ◌%◌, ◌<◌, ◌≡◌, refl, bit_xor, Bool, true, ◌&&◌, ◌==◌, get_or, if◌then◌else◌,
  arith,
}
use raft_bitcask.Codec.Crc.Table.{crc32_table}

-- Division by the polynomial 0x04C11DB7, reflected, one bit at a time.
unfoldable pub divide_bits : ℕ → ℕ → ℕ
divide_bits zero r = r
divide_bits (suc n) r = divide_bits n (if r % 2 == 1 then bit_xor (r / 2) 0xedb88320 else r / 2)

entries_agree : ℕ → Bool
entries_agree zero = true
entries_agree (suc n) = get_or crc32_table n 0 == divide_bits 8 n && entries_agree n

entries_agree_sound :
    (n i : ℕ) → entries_agree n ≡ true → i < n → get_or crc32_table i 0 ≡ divide_bits 8 i
unfolding entries_agree
entries_agree_sound zero i e h = absurd (omega arith)
entries_agree_sound (suc n) i e h = ground (arith, entries_agree_sound n i)

all_agree : entries_agree 256 ≡ true
unfolding entries_agree divide_bits crc32_table
all_agree = refl

-- Each entry of the table is what eight steps of the bitwise division make of its index: the
-- reflected polynomial 0xEDB88320 of CRC-32.
pub crc32_table-divide : (i : ℕ) → i < 256 → get_or crc32_table i 0 ≡ divide_bits 8 i
crc32_table-divide i h = entries_agree_sound 256 i all_agree h
