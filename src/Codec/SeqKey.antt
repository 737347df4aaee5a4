-- ===== src/Codec/SeqKey.antt =====
-- `DB::log_record_key_with_seq` and `DB::parse_log_record_key` of src/db.cpp: the key of a logged
-- record, with the sequence number of its transaction behind it.
use raft_bitcask.Prelude.{
  ℕ, ◌+◌, ◌-◌, ◌<◌, ◌≡◌, ◌≢◌, ap, ◌∙◌, ◌++◌, All, sym, length, length-append, take, drop,
  take-append_self, drop-append_self, ltb, ◌==◌, if◌then◌else◌, arith,
}
use raft_bitcask.Common.{Bytes, IsByte, IsU64, non_transaction_seq_no}
use raft_bitcask.Codec.LittleEndian.{
  push_le, or_le, or_le-push_le, length-push_le, number_of, number_of-lt, push_le-number_of,
}

unfoldable pub log_record_key_with_seq : Bytes → ℕ → Bytes
log_record_key_with_seq key seq_no =
    if seq_no == non_transaction_seq_no then key else key ++ push_le 8 0 seq_no

-- The number in the last eight bytes.
unfoldable pub tail_seq : Bytes → ℕ
tail_seq key = or_le 0 0 (drop (length key - 8) key)

unfoldable pub parse_log_record_key : Bytes → Bytes × ℕ
parse_log_record_key key =
    if ltb (length key) 8
    then (key, non_transaction_seq_no)
    else if tail_seq key == non_transaction_seq_no
    then (key, non_transaction_seq_no)
    else (take (length key - 8) key, tail_seq key)

-- A key tagged with the number of a transaction is read back, whatever the key.
pub parse-with_seq :
    (key : Bytes) (seq_no : ℕ)
    → IsU64 seq_no
    → seq_no ≢ 0
    → parse_log_record_key (log_record_key_with_seq key seq_no) ≡ (key, seq_no)
unfolding log_record_key_with_seq parse_log_record_key tail_seq
parse-with_seq key seq_no fits nonzero =
    let tag = push_le 8 0 seq_no in
    let size : length (key ++ tag) ≡ length key + 8 =
      length-append key tag ∙ ap (λ (t : ℕ). length key + t) (length-push_le 8 0 seq_no) in
    let front : length (key ++ tag) - 8 ≡ length key = omega arith in
    let back : drop (length (key ++ tag) - 8) (key ++ tag) ≡ tag =
      ap (λ (t : ℕ). drop t (key ++ tag)) front ∙ drop-append_self key tag in
    let start : take (length (key ++ tag) - 8) (key ++ tag) ≡ key =
      ap (λ (t : ℕ). take t (key ++ tag)) front ∙ take-append_self key tag in
    let seq : or_le 0 0 (drop (length (key ++ tag) - 8) (key ++ tag)) ≡ seq_no =
      ap (or_le 0 0) back ∙ or_le-push_le seq_no fits in
    ground arith

-- A key that is read back as the key of a write outside transactions.
abbrev pub IsPlainKey : Bytes → Type 0
IsPlainKey key = parse_log_record_key key ≡ (key, non_transaction_seq_no)

pub short-IsPlainKey : (key : Bytes) → length key < 8 → IsPlainKey key
unfolding parse_log_record_key
short-IsPlainKey key h = ground arith

-- A key that ends in eight bytes which are the digits of a number other than 0, the lowest first, and
-- is logged outside transactions, is parsed as the key of the transaction with that number, without
-- these bytes.
pub long_key_misread :
    (front tag : Bytes)
    → length tag ≡ 8
    → All IsByte tag
    → number_of tag ≢ 0
    → parse_log_record_key (log_record_key_with_seq (front ++ tag) 0) ≡ (front, number_of tag)
unfolding log_record_key_with_seq
long_key_misread front tag eight bytes nonzero =
    let digits : push_le 8 0 (number_of tag) ≡ tag =
      ap (λ (n : ℕ). push_le n 0 (number_of tag)) (sym eight) ∙ push_le-number_of tag bytes in
    let fits : IsU64 (number_of tag) = rw eight at (number_of-lt tag bytes) in
    let tagged : log_record_key_with_seq front (number_of tag) ≡ front ++ tag =
      ground (arith, digits) in
    rw tagged at (parse-with_seq front (number_of tag) fits nonzero)
