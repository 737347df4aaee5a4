-- ===== src/Db/Load/Replay.antt =====
-- The loop of `load_index_from_data_files` over a file that holds whole records.
use raft_bitcask.Prelude.{
  ℕ, zero, suc, ◌+◌, ◌%◌, ◌^◌, ◌<◌, ◌≡◌, refl, sym, ap, ◌∙◌, true, some, List, [], ◌∷◌, ◌++◌,
  append_assoc, append-nil, length, length-append, All, arith,
}
use raft_bitcask.Common.{Bytes, ok}
use raft_bitcask.Codec.Record.{LogRecord, LogRecordPos, encode}
use raft_bitcask.Storage.FileSystem.{Calls, Reliable}
use raft_bitcask.Storage.DataFile.{DataFile}
use raft_bitcask.Storage.DataFile.Reads.{IsReadable, read_log_record-encode, read_log_record_end}
use raft_bitcask.Db.Load.{LoadState, process_record, load_loop, outcome}

-- The bytes of a log.
abbrev pub log_bytes : List LogRecord → Bytes
log_bytes [] = []
log_bytes (r ∷ rest) = (encode r).0 ++ log_bytes rest

pub log_bytes-append :
    (xs ys : List LogRecord) → log_bytes (xs ++ ys) ≡ log_bytes xs ++ log_bytes ys
log_bytes-append [] ys = refl
log_bytes-append (r ∷ xs) ys =
    ap (λ t. (encode r).0 ++ t) (log_bytes-append xs ys)
    ∙ sym (append_assoc (encode r).0 (log_bytes xs) (log_bytes ys))

-- Where a record lies that is logged at `offset` in the file `fid`.
abbrev pub pos_at : ℕ → ℕ → LogRecord → LogRecordPos
pos_at fid offset r = record { fid = fid; offset = offset; size = length (encode r).0 % 2 ^ 32 }

-- The records one after the other, the first at `offset`.
unfoldable pub process_all : ℕ → ℕ → List LogRecord → LoadState → LoadState
process_all fid offset [] s = s
process_all fid offset (r ∷ rest) s =
    process_all fid (offset + length (encode r).0) rest (process_record r (pos_at fid offset r) s)

pub process_all-append :
    (fid offset : ℕ) (xs ys : List LogRecord) (s : LoadState)
    → process_all fid offset (xs ++ ys) s
      ≡ process_all fid (offset + length (log_bytes xs)) ys (process_all fid offset xs s)
unfolding process_all
process_all-append fid offset [] ys s =
    let e : offset ≡ offset + 0 = omega arith in ap (λ (n : ℕ). process_all fid n ys s) e
process_all-append fid offset (r ∷ xs) ys s =
    let e : offset + length (encode r).0 + length (log_bytes xs)
        ≡ offset + length ((encode r).0 ++ log_bytes xs) =
      omega (arith, length-append (encode r).0 (log_bytes xs)) in
    process_all-append fid (offset + length (encode r).0) xs ys
      (process_record r (pos_at fid offset r) s)
    ∙ ap
        (λ (n : ℕ). process_all fid n ys (
          process_all fid (offset + length (encode r).0) xs
            (process_record r (pos_at fid offset r) s)))
        e

module _ {os : Calls} (disk : Reliable os) (d : os.Disk) (f : DataFile) (b : Bytes)
    (opened : f.is_open ≡ true) (has : disk.content d f.path ≡ some b) where
  -- Over an open file on a disk that does not fail, which from the end of `front` on holds the log of
  -- records within the limits, the loop, with fuel for one round more than there are records, processes
  -- them in their order and ends at the end of the file.
  pub load_loop-log :
      (fuel : ℕ) (rs : List LogRecord) (front : Bytes) (s : LoadState)
      → All IsReadable rs
      → b ≡ front ++ log_bytes rs
      → length rs < fuel
      → load_loop os fuel d f (length front) s
        ≡ some (ok (process_all f.file_id (length front) rs s, length b))
  unfolding load_loop process_all outcome
  load_loop-log zero rs front s h layout enough = absurd (omega arith)
  load_loop-log (suc fuel) [] front s h layout enough =
      let whole : front ≡ b = sym (layout ∙ append-nil front) in
      let size : length front ≡ length b = ap length whole in
      rw
        (load_loop, read_log_record_end disk d f b opened has (length front) (omega arith), outcome)
        (rw size refl)
  load_loop-log (suc fuel) (r ∷ rest) front s (h, hs) layout enough =
      let bytes = (encode r).0 in
      let next : length front + length bytes ≡ length (front ++ bytes) =
        sym (length-append front bytes) in
      let tail : b ≡ (front ++ bytes) ++ log_bytes rest =
        layout ∙ sym (append_assoc front bytes (log_bytes rest)) in
      rw
        (
          load_loop,
          read_log_record-encode disk d f b opened has r front (log_bytes rest) h layout,
          outcome,
        )
        (rw next (
          load_loop-log fuel rest (front ++ bytes)
            (process_record r (pos_at f.file_id (length front) r) s) hs tail (omega arith)))
