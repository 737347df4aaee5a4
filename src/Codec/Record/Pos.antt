-- ===== src/Codec/Record/Pos.antt =====
-- Positions, as the hint file holds them.
use raft_bitcask.Prelude.{◌≡◌, [], ◌++◌, append-nil, length, drop-append_self, arith}
use raft_bitcask.Common.{IsU32, IsU64, ok}
use raft_bitcask.Codec.Varint.{encode_varint, decode_varint}
use raft_bitcask.Codec.Varint.RoundTrip.{decode-encode}
use raft_bitcask.Codec.Record.{LogRecordPos, encode_pos, decode_pos}

-- The fields of a position have their machine types.
abbrev pub IsPos : LogRecordPos → Type 0
IsPos p = IsU32 p.fid × IsU64 p.offset × IsU32 p.size

-- `decode` reads back each position that `encode` wrote.
pub decode_pos-encode_pos : (p : LogRecordPos) → IsPos p → decode_pos (encode_pos p) ≡ ok p
unfolding decode_pos encode_pos
decode_pos-encode_pos p (hf, ho, hs) =
    let f = encode_varint p.fid in
    let o = encode_varint p.offset in
    let s = encode_varint p.size in
    let last : decode_varint s ≡ ok (p.size, length s) =
      rw append-nil at (decode-encode p.size [] (omega arith)) in
    rw
      (
        decode-encode p.fid (o ++ s) (omega arith),
        drop-append_self f (o ++ s),
        decode-encode p.offset s ho,
        drop-append_self o s,
        last,
      )
      (ground arith)
