-- ===== src/Codec/Varint/RoundTrip.antt =====
-- `decode_varint` reads back what `encode_varint` wrote, whatever follows it.
use raft_bitcask.Prelude.{
  ℕ, zero, suc, ◌+◌, ◌*◌, ◌/◌, ◌%◌, ◌^◌, ◌≤◌, ◌<◌, ◌≡◌, ap, [], ◌∷◌, ◌++◌, length, All, arith,
}
use raft_bitcask.Prelude.Bits.{bit_and_mask, bit_and_top, bit_or-disjoint}
use raft_bitcask.Common.{Bytes, IsByte, IsU64, ok}
use raft_bitcask.Codec.Varint.{encode_varint, or_group, decode_varint_loop, decode_varint}
use raft_bitcask.Codec.Varint.Encoding.{groups, encode_varint-groups, groups-IsByte, length-groups}
use native.Mathlib.Nat.{div-add-mod}
use native.Mathlib.Numerals.{towards_suc}

shift_seven : (s : ℕ) → 2 ^ (s + 7) ≡ 128 * 2 ^ s
shift_seven s = simp towards_suc (omega arith)

-- The bits below `shift` are those read so far, so the disjunction is a sum.
or_group-add :
    (result byte shift : ℕ)
    → byte < 256
    → result < 2 ^ shift
    → IsU64 (byte % 128 * 2 ^ shift)
    → or_group result byte shift ≡ result + byte % 128 * 2 ^ shift
or_group-add result byte shift hb hr fits =
    ground (arith, bit_and_mask 7 byte, bit_or-disjoint shift result (byte % 128) hr)

last_group :
    (w result pos shift : ℕ) (rest : Bytes)
    → w < 128
    → result < 2 ^ shift
    → IsU64 (result + w * 2 ^ shift)
    → decode_varint_loop (w ∷ rest) result pos shift ≡ ok (result + w * 2 ^ shift, pos + 1)
unfolding decode_varint_loop
last_group w result pos shift rest hw hr fits =
    ground (arith, bit_and_top w (omega arith), or_group-add result w shift)

inner_group :
    (g result pos shift : ℕ) (rest : Bytes)
    → g < 128
    → result < 2 ^ shift
    → shift + 7 < 64
    → IsU64 (result + g * 2 ^ shift)
    → decode_varint_loop ((g + 128) ∷ rest) result pos shift
      ≡ decode_varint_loop rest (result + g * 2 ^ shift) (pos + 1) (shift + 7)
unfolding decode_varint_loop
inner_group g result pos shift rest hg hr hs fits =
    ground (arith, bit_and_top (g + 128) (omega arith), or_group-add result (g + 128) shift)

split_groups : (u k : ℕ) → u * 2 ^ k ≡ u % 128 * 2 ^ k + u / 128 * 2 ^ (k + 7)
split_groups u k = omega (
  arith,
  ap (λ (x : ℕ). x * 2 ^ k) (div-add-mod u 128),
  ap (λ (x : ℕ). u / 128 * x) (shift_seven k),
)

next_bound : (g result s : ℕ) → g < 128 → result < 2 ^ s → result + g * 2 ^ s < 2 ^ (s + 7)
next_bound g result s hg hr = grind (arith, shift_seven s)

loop-groups :
    (k w result pos shift : ℕ) (rest : Bytes)
    → w < 128 ^ suc k
    → shift + 7 * k ≡ 63
    → result < 2 ^ shift
    → IsU64 (result + w * 2 ^ shift)
    → decode_varint_loop (groups k w ++ rest) result pos shift
      ≡ ok (result + w * 2 ^ shift, pos + length (groups k w))
unfolding groups
loop-groups zero w result pos shift rest hw hs hr fits =
    last_group w result pos shift rest hw hr fits
loop-groups (suc k) w result pos shift rest hw hs hr fits = ground (
  arith,
  last_group w result pos shift rest,
  split_groups w shift,
  next_bound (w % 128) result shift (omega arith) hr,
  inner_group (w % 128) result pos shift (groups k (w / 128) ++ rest),
  loop-groups k (w / 128) (result + w % 128 * 2 ^ shift) (pos + 1) (shift + 7) rest (omega arith),
)

from_loop :
    (src : Bytes) {p : ℕ × ℕ} → decode_varint_loop src 0 0 0 ≡ ok p → decode_varint src ≡ ok p
unfolding decode_varint decode_varint_loop
from_loop [] e = cc
from_loop (byte ∷ rest) e = e

-- `decode_varint` of an encoded 64-bit number, followed by any bytes, returns the number and the
-- length of its encoding.
pub decode-encode :
    (v : ℕ) (rest : Bytes)
    → IsU64 v
    → decode_varint (encode_varint v ++ rest) ≡ ok (v, length (encode_varint v))
decode-encode v rest h =
    rw (encode_varint-groups v h)
      (from_loop (groups 9 v ++ rest) (ground (arith, loop-groups 9 v 0 0 0 rest)))

-- The encoding of a 64-bit number has one to ten bytes.
pub encode_varint_shape :
    (v : ℕ)
    → IsU64 v
    → All IsByte (encode_varint v)
      × (1 ≤ length (encode_varint v))
      × (length (encode_varint v) ≤ 10)
encode_varint_shape v h =
    let (lo, hi) = length-groups 9 v in
    rw (encode_varint-groups v h) (groups-IsByte 9 v (omega arith), lo, hi)
