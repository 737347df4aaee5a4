-- ===== src/Codec/Varint/Encoding.antt =====
-- What `encode_varint` writes, in plain arithmetic.
use mathlib.Core.WellFounded.{Acc}
use raft_bitcask.Prelude.{
  ℕ, zero, suc, ◌+◌, ◌/◌, ◌%◌, ◌^◌, ◌≤◌, ◌<◌, bit_and, bit_or, ◌≡◌, [], ◌∷◌, ◌++◌, append_assoc,
  ltb, length, All, if◌then◌else◌, arith,
}
use raft_bitcask.Prelude.Bits.{bit_and_mask, bit_or_top}
use raft_bitcask.Common.{Bytes, IsByte, IsU64}
use raft_bitcask.Codec.Varint.{encode_varint_loop, encode_varint}

-- The groups of seven bits of `v`, lowest first, for `v` below 128 ^ (k + 1).
unfoldable pub groups : ℕ → ℕ → Bytes
groups zero v = v ∷ []
groups (suc k) v =
    let rest = groups k (v / 128) in if ltb v 128 then v ∷ [] else (v % 128 + 128) ∷ rest

low_byte : (v : ℕ) → bit_and v 0xff ≡ v % 256
low_byte v = bit_and_mask 8 v

or_top_byte : (v : ℕ) → bit_or (v % 256) 0x80 ≡ v % 128 + 128
or_top_byte v = omega (arith, bit_or_top (v % 256) (omega arith))

loop-groups :
    (k : ℕ) (buffer : Bytes) (v : ℕ) (w : Acc ◌<◌ v)
    → v < 128 ^ suc k
    → encode_varint_loop buffer v w ≡ buffer ++ groups k v
unfolding encode_varint_loop groups
loop-groups zero buffer v (Acc.intro _ smaller) h = ground (arith, low_byte v)
loop-groups (suc k) buffer v (Acc.intro _ smaller) h =
    let head : Bytes = (v % 128 + 128) ∷ [] in
    grind (
      arith,
      low_byte v,
      or_top_byte v,
      λ (w : Acc ◌<◌ (v / 128)). loop-groups k (buffer ++ head) (v / 128) w (omega arith),
      append_assoc buffer head (groups k (v / 128)),
    )

pub encode_varint-groups : (v : ℕ) → IsU64 v → encode_varint v ≡ groups 9 v
unfolding encode_varint
encode_varint-groups v h = loop-groups 9 [] v _ (omega arith)

pub groups-IsByte : (k v : ℕ) → v < 128 ^ suc k → All IsByte (groups k v)
unfolding groups
groups-IsByte zero v h = omega arith
groups-IsByte (suc k) v h = ground (arith, groups-IsByte k (v / 128) (omega arith))

pub length-groups : (k v : ℕ) → (1 ≤ length (groups k v)) × (length (groups k v) ≤ k + 1)
unfolding groups
length-groups zero v = omega arith
length-groups (suc k) v = ground (arith, length-groups k (v / 128))

-- A number below 128 ^ (j + 1) needs no more than j + 1 groups.
pub length-groups_le : (j k v : ℕ) → v < 128 ^ suc j → length (groups k v) ≤ suc j
unfolding groups
length-groups_le j zero v h = omega arith
length-groups_le zero (suc k) v h = ground arith
length-groups_le (suc j) (suc k) v h = ground (arith, length-groups_le j k (v / 128) (omega arith))
