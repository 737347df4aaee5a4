-- ===== src/Storage/DataFile/Reads.antt =====
-- What `read_log_record` returns on a disk that does not fail.
use raft_bitcask.Prelude.{
  ℕ, ◌+◌, ◌-◌, ◌%◌, ◌^◌, ◌≤◌, ◌<◌, ◌≡◌, refl, sym, ap, ap₂, ◌∙◌, min, true, some, List, [], ◌∷◌,
  ◌++◌, append_assoc, length, take, drop, length-append, length-take, length-drop, take-min,
  take_all, take-append_le, take-append_self, drop-append, drop-append_self, arith,
}
use raft_bitcask.Common.{Bytes, ok, throw, read_data_file_eof}
use raft_bitcask.Codec.Record.{LogRecord, encode}
use raft_bitcask.Codec.Record.Header.{
  header_bytes, header_of, IsWritable, encode-header, decode-header, header_bytes_size,
}
use raft_bitcask.Storage.FileSystem.{Calls, Reliable}
use raft_bitcask.Storage.DataFile.{
  DataFile, max_record_size, split_kv, check_crc, at_least_five, io_size, read_n_bytes, read_body,
  read_log_record,
}

length-zero {ℓ} : {A : Type ℓ} (xs : List A) → length xs ≡ 0 → xs ≡ []
length-zero [] e = refl
length-zero (x ∷ xs) e = absurd (omega arith)

-- Key and value come apart where the header says.
split_kv-whole : (r : LogRecord) → split_kv (header_of r) (r.key ++ r.value) ≡ r
unfolding split_kv
split_kv-whole r = ground (
  arith,
  length-append r.key r.value,
  take-append_self r.key r.value,
  drop-append_self r.key r.value,
  take_all (length r.value) r.value (omega arith),
  length-zero r.key,
  length-zero r.value,
)

check_crc-header : (r : LogRecord) → check_crc (header_of r) r ≡ ok tt
unfolding check_crc
check_crc-header r = ground arith

-- What the engine writes: the lengths are within the limit that `read_log_record` sets, and the
-- key is not empty.
pub record IsReadable (r : LogRecord) : Type 0 where
  pub some_key : 0 < length r.key
  pub key_fits : length r.key ≤ max_record_size
  pub value_fits : length r.value ≤ max_record_size

module _ {os : Calls} (disk : Reliable os) (d : os.Disk) (f : DataFile) (b : Bytes)
    (opened : f.is_open ≡ true) (has : disk.content d f.path ≡ some b) where
  pub io_size-content : io_size os d f ≡ ok (length b)
  unfolding io_size
  io_size-content = rw (opened, disk.file_size-content d f.path, has)

  -- Inside the file as many bytes come back as were asked for, or as there are.
  pub read_n_bytes-content :
      (n offset : ℕ)
      → 0 < n
      → offset < length b
      → read_n_bytes os d f n offset ≡ ok (take n (drop offset b))
  unfolding read_n_bytes
  read_n_bytes-content n offset hn ho =
      let actual = min n (length b - offset) in
      let size : length (take actual (drop offset b)) ≡ actual =
        omega (arith, length-take actual (drop offset b), length-drop offset b) in
      let same : take actual (drop offset b) ≡ take n (drop offset b) =
        ap (λ (k : ℕ). take (min n k) (drop offset b)) (sym (length-drop offset b))
        ∙ take-min n (drop offset b) in
      rw (io_size-content, disk.pread-content d f.path actual offset, has) (ground arith)

  -- The part behind the header, where the file holds the record at `offset`.
  body-content :
      (r : LogRecord) (offset : ℕ) (back : Bytes)
      → IsReadable r
      → drop (offset + length (header_bytes r)) b ≡ (r.key ++ r.value) ++ back
      → offset + length (header_bytes r) + length (r.key ++ r.value) ≤ length b
      → read_body os d f offset (length b) (header_of r, length (header_bytes r))
        ≡ ok (record {
          log_record = r;
          size = length (header_bytes r) + length r.key + length r.value;
        })
  unfolding read_body
  body-content r offset back fits behind inside =
      let n = (length r.key + length r.value) % 2 ^ 32 in
      let count : n ≡ length (r.key ++ r.value) =
        omega (arith, fits.key_fits, fits.value_fits, length-append r.key r.value) in
      let kv : read_n_bytes os d f n (offset + length (header_bytes r)) ≡ ok (r.key ++ r.value) =
        read_n_bytes-content n (offset + length (header_bytes r))
          (omega (arith, fits.some_key, length-append r.key r.value))
          (omega (arith, fits.some_key, length-append r.key r.value))
        ∙ ap ok (ap₂ take count behind ∙ take-append_self (r.key ++ r.value) back) in
      rw (kv) (
        rw (split_kv-whole r, check_crc-header r)
          (ground (arith, fits.some_key, fits.key_fits, fits.value_fits)))

  -- Where the encoding of a record stands in the file, at the end of `front`, `read_log_record`
  -- returns the record and the number of bytes to its end.
  pub read_log_record-encode :
      (r : LogRecord) (front back : Bytes)
      → IsReadable r
      → b ≡ front ++ ((encode r).0 ++ back)
      → read_log_record os d f (length front)
        ≡ ok (record { log_record = r; size = length (encode r).0 })
  unfolding read_log_record at_least_five
  read_log_record-encode r front back fits layout =
      let h = header_bytes r in
      let kv = r.key ++ r.value in
      let writable : IsWritable r =
        (omega (arith, fits.key_fits), omega (arith, fits.value_fits)) in
      let (h_some, h_most) = header_bytes_size r writable in
      let pieces : b ≡ front ++ (h ++ (kv ++ back)) =
        layout
        ∙ ap (λ t. front ++ t) (ap (λ t. t ++ back) (encode-header r) ∙ append_assoc h kv back) in
      let total : length b ≡ length front + (length h + (length kv + length back)) =
        ap length pieces
        ∙ omega (
          arith,
          length-append front (h ++ (kv ++ back)),
          length-append h (kv ++ back),
          length-append kv back,
        ) in
      let count = min 15 (length b - length front) in
      let enough : length h ≤ count = omega (arith, fits.some_key, length-append r.key r.value) in
      let front_read : read_n_bytes os d f count (length front)
          ≡ ok (h ++ take (count - length h) (kv ++ back)) =
        read_n_bytes-content count (length front) (omega arith) (omega arith)
        ∙ ap ok (
            ap (take count) (ap (drop (length front)) pieces ∙ drop-append_self front _)
            ∙ take-append_le count h (kv ++ back) enough) in
      let behind : drop (length front + length h) b ≡ kv ++ back =
        ap (drop (length front + length h)) pieces
        ∙ drop-append (length h) front _
        ∙ drop-append_self h (kv ++ back) in
      let size : length h + length r.key + length r.value ≡ length (encode r).0 =
        omega
          (arith, ap length (encode-header r), length-append h kv, length-append r.key r.value) in
      rw
        (
          io_size-content,
          front_read,
          decode-header r (take (count - length h) (kv ++ back)) writable,
          body-content r (length front) back fits behind (omega arith),
        )
        (ground (arith, length-append h (take (count - length h) (kv ++ back))))

  -- At and behind the end of the file there is no record.
  pub read_log_record_end :
      (offset : ℕ) → length b ≤ offset → read_log_record os d f offset ≡ throw read_data_file_eof
  unfolding read_log_record
  read_log_record_end offset h = rw io_size-content (ground arith)
