-- ===== src/Codec/Varint/Bounds.antt =====
-- `decode_varint` on any input, well formed or not.
use raft_bitcask.Prelude.{ℕ, ◌+◌, ◌*◌, ◌≤◌, ◌<◌, ◌≡◌, ◌++◌, [], ◌∷◌, length, arith}
use raft_bitcask.Common.{Bytes, ok}
use raft_bitcask.Codec.Varint.{or_group, decode_varint_loop, decode_varint}

loop_takes :
    (src : Bytes) (result pos shift v p : ℕ)
    → shift ≡ 7 * pos
    → pos ≤ 9
    → decode_varint_loop src result pos shift ≡ ok (v, p)
    → (pos < p) × (p ≤ pos + length src) × (p ≤ 10)
unfolding decode_varint_loop
loop_takes [] result pos shift v p hs hp e = cc
loop_takes (byte ∷ rest) result pos shift v p hs hp e =
    ground (arith, loop_takes rest (or_group result byte shift) (pos + 1) (shift + 7) v p)

-- A number that `decode_varint` accepts took at least one byte of the buffer, at most ten, and none
-- beyond the buffer's end.
pub decode_varint_takes :
    (src : Bytes) (v p : ℕ) → decode_varint src ≡ ok (v, p) → (1 ≤ p) × (p ≤ length src) × (p ≤ 10)
unfolding decode_varint
decode_varint_takes [] v p e = cc
decode_varint_takes (byte ∷ rest) v p e = ground (arith, loop_takes (byte ∷ rest) 0 0 0 v p)

loop-append :
    (src more : Bytes) (result pos shift v p : ℕ)
    → decode_varint_loop src result pos shift ≡ ok (v, p)
    → decode_varint_loop (src ++ more) result pos shift ≡ ok (v, p)
unfolding decode_varint_loop
loop-append [] more result pos shift v p e = cc
loop-append (byte ∷ rest) more result pos shift v p e =
    ground (arith, loop-append rest more (or_group result byte shift) (pos + 1) (shift + 7) v p)

-- Bytes behind an accepted number change nothing.
pub decode_varint-append :
    (src more : Bytes) (v p : ℕ)
    → decode_varint src ≡ ok (v, p)
    → decode_varint (src ++ more) ≡ ok (v, p)
unfolding decode_varint
decode_varint-append [] more v p e = cc
decode_varint-append (byte ∷ rest) more v p e = loop-append (byte ∷ rest) more 0 0 0 v p e
