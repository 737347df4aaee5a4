-- ===== src/Index/BPlusTree/File/Reading.antt =====
-- `std::istream::read`, as src/bplus_tree_index.cpp uses it: the bytes not yet read, and `good()`.
use raft_bitcask.Prelude.{
  ℕ, ◌≡◌, sym, ap, ◌∙◌, Bool, true, false, [], ◌++◌, length, take, drop, leb, if◌then◌else◌,
  take-append_front, drop-append_self, length-append, arith,
}
use raft_bitcask.Common.{Bytes}

pub record Stream : Type 0 where
  pub bytes : Bytes
  pub good : Bool

abbrev pub opened : Bytes → Stream
opened bytes = record { bytes = bytes; good = true }

-- `read` of a number of bytes over what the buffer held: where there are fewer, it takes those, and
-- the stream is no longer good; from such a stream it takes nothing.
unfoldable pub read : ℕ → Bytes → Stream → Bytes × Stream
read n buffer is =
    if is.good
    then (if leb n (length is.bytes)
        then (take n is.bytes, opened (drop n is.bytes))
        else (is.bytes ++ drop (length is.bytes) buffer, record { bytes = []; good = false }))
    else (buffer, is)

-- A read of as many bytes as stand in front.
pub read-append :
    (n : ℕ) (buffer front rest : Bytes)
    → length front ≡ n
    → read n buffer (opened (front ++ rest)) ≡ (front, opened rest)
unfolding read
read-append n buffer front rest e =
    let cut : take n (front ++ rest) ≡ front = take-append_front n front rest e in
    let left : drop n (front ++ rest) ≡ rest =
      ap (λ (k : ℕ). drop k (front ++ rest)) (sym e) ∙ drop-append_self front rest in
    rw (cut, left) (ground (arith, length-append front rest))
