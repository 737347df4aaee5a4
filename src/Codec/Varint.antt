-- ===== src/Codec/Varint.antt =====
-- `encode_varint` and `decode_varint` of src/log_record.cpp.
pub mod Encoding
pub mod RoundTrip
pub mod Bounds
use mathlib.Core.Logic.{dite}
use mathlib.Core.WellFounded.{Acc}
use native.Mathlib.Decide.{dec_le}
use raft_bitcask.Prelude.{
  ℕ, ◌+◌, ◌*◌, ◌/◌, ◌%◌, ◌^◌, ◌≤◌, ◌<◌, bit_and, bit_or, List, [], ◌∷◌, ◌++◌, ◌==◌, leb,
  if◌then◌else◌, arith,
}
use raft_bitcask.Prelude.Order.{lt_wf}
use raft_bitcask.Common.{Bytes, Error, bitcask_exception, Result, ok, throw}

pub shift_shrinks : (value : ℕ) → 0x80 ≤ value → value / 128 < value
shift_shrinks value h = omega arith

-- `while (value >= 0x80)`. The bytes are those written to `buffer[0 .. pos)`; `value >>= 7` is
-- `value / 128`.
unfoldable pub encode_varint_loop : Bytes → (value : ℕ) → Acc ◌<◌ value → Bytes
encode_varint_loop buffer value (Acc.intro _ smaller) =
    dite (dec_le 0x80 value)
      (λ more.
        encode_varint_loop (buffer ++ (bit_or (bit_and value 0xff) 0x80 ∷ [])) (value / 128)
          (smaller _ (shift_shrinks value more)))
      (λ _. buffer ++ (bit_and value 0xff ∷ []))

unfoldable pub encode_varint : ℕ → Bytes
encode_varint value = encode_varint_loop [] value (lt_wf.apply value)

-- `result |= (uint64_t(byte & 0x7F) << shift)`
abbrev pub or_group : ℕ → ℕ → ℕ → ℕ
or_group result byte shift = bit_or result (bit_and byte 0x7f * 2 ^ shift % 2 ^ 64)

-- The list is the part of the buffer from `pos` on.
unfoldable pub decode_varint_loop : Bytes → ℕ → ℕ → ℕ → Result (ℕ × ℕ)
decode_varint_loop [] result pos shift = throw (bitcask_exception "Incomplete varint")
decode_varint_loop (byte ∷ rest) result pos shift =
    let more = decode_varint_loop rest (or_group result byte shift) (pos + 1) (shift + 7) in
    if bit_and byte 0x80 == 0
    then ok (or_group result byte shift, pos + 1)
    else if leb 64 (shift + 7)
    then throw (bitcask_exception "Varint too long")
    else more

unfoldable pub decode_varint : Bytes → Result (ℕ × ℕ)
decode_varint [] = throw (bitcask_exception "Empty buffer for varint")
decode_varint (byte ∷ rest) = decode_varint_loop (byte ∷ rest) 0 0 0
