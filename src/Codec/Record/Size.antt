-- ===== src/Codec/Record/Size.antt =====
-- `encoded_size` counts the bytes that `encode` writes.
use mathlib.Core.WellFounded.{Acc}
use raft_bitcask.Prelude.{
  ℕ, ◌+◌, ◌/◌, ◌<◌, ◌≡◌, refl, ◌≤◌, bit_and, bit_or, [], ◌∷◌, ◌++◌, length, length-append, arith,
}
use raft_bitcask.Prelude.Order.{lt_wf}
use raft_bitcask.Common.{Bytes}
use raft_bitcask.Codec.Varint.{encode_varint, encode_varint_loop, shift_shrinks}
use raft_bitcask.Codec.Record.{LogRecord, lengths, encode, size_loop, encoded_size}

size_loop-length :
    (size : ℕ) (buffer : Bytes) (v : ℕ) (w : Acc ◌<◌ v)
    → size_loop size v w + length buffer ≡ size + length (encode_varint_loop buffer v w)
unfolding size_loop encode_varint_loop
size_loop-length size buffer v (Acc.intro _ smaller) = grind (
  arith,
  λ (p : 0x80 ≤ v).
      size_loop-length (size + 1) (buffer ++ (bit_or (bit_and v 0xff) 0x80 ∷ [])) (v / 128)
        (smaller _ (shift_shrinks v p)),
  length-append buffer (bit_or (bit_and v 0xff) 0x80 ∷ []),
  length-append buffer (bit_and v 0xff ∷ []),
)

size_loop-encode : (size v : ℕ) → size_loop size v (lt_wf.apply v) ≡ size + length (encode_varint v)
unfolding encode_varint
size_loop-encode size v = omega (arith, size_loop-length size [] v (lt_wf.apply v))

-- The size that `encode` returns is the length of its bytes, and `encoded_size` tells it beforehand.
pub encoded_size-length :
    (r : LogRecord) → ((encode r).1 ≡ length (encode r).0) × (encoded_size r ≡ length (encode r).0)
unfolding encode encoded_size lengths
encoded_size-length r =
    let k = encode_varint (length r.key) in
    let v = encode_varint (length r.value) in
    (
      refl,
      omega (
        arith,
        size_loop-encode (4 + 1) (length r.key),
        size_loop-encode (size_loop (4 + 1) (length r.key) (lt_wf.apply (length r.key)))
            (length r.value),
        length-append k v,
        length-append r.key r.value,
        length-append (k ++ v) (r.key ++ r.value),
      ),
    )
