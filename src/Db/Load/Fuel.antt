-- ===== src/Db/Load/Fuel.antt =====
-- The fuel of the loop over one file in `load_index_from_data_files`.
use raft_bitcask.Prelude.{
  ℕ, zero, suc, ◌+◌, ◌≤◌, ◌<◌, ◌≡◌, refl, Bool, true, false, Option, some, length, leb,
  if◌then◌else◌, arith, Bool-cases, inl, inr,
}
use raft_bitcask.Common.{Bytes, Result, ok, throw, read_data_file_eof}
use raft_bitcask.Codec.Record.{LogRecordHeader}
use raft_bitcask.Codec.Record.Header.{decode-takes}
use raft_bitcask.Storage.FileSystem.{Calls, Reliable}
use raft_bitcask.Storage.DataFile.{DataFile, ReadLogRecord, read_body, read_log_record}
use raft_bitcask.Storage.DataFile.Reads.{io_size-content, read_log_record_end}
use raft_bitcask.Db.Load.{LoadState, load_loop, Outcome, record_read, end_of_file, damaged, outcome}

module _ (os : Calls) where
  read_body_moves :
      (d : os.Disk) (f : DataFile) (offset file_size : ℕ) (h : LogRecordHeader × ℕ)
      (r : ReadLogRecord)
      → read_body os d f offset file_size h ≡ ok r
      → 5 ≤ h.1
      → 5 ≤ r.size
  unfolding read_body
  read_body_moves d f offset file_size (header, header_size) r e most = ground arith

  -- A record that is read takes at least the five bytes of checksum and type, on any disk.
  pub read_log_record_moves :
      (d : os.Disk) (f : DataFile) (offset : ℕ) (r : ReadLogRecord)
      → read_log_record os d f offset ≡ ok r
      → 5 ≤ r.size
  unfolding read_log_record
  read_log_record_moves d f offset r e = grind (arith, decode-takes, read_body_moves)

outcome-read : (m : Result ReadLogRecord) (r : ReadLogRecord) → outcome m ≡ record_read r → m ≡ ok r
unfolding outcome
outcome-read (ok r') r e = cc
outcome-read (throw read_data_file_eof) r e = cc
outcome-read (throw err) r e = cc

module _ {os : Calls} (disk : Reliable os) (d : os.Disk) (f : DataFile) (b : Bytes)
    (opened : f.is_open ≡ true) (has : disk.content d f.path ≡ some b) where
  abbrev Ends : Option (Result (LoadState × ℕ)) → Type 0
  Ends r = (out : LoadState × ℕ) × (r ≡ some (ok out))

  Ends-if :
      (t : Bool) (x y : Option (Result (LoadState × ℕ)))
      → Ends x
      → Ends y
      → Ends (if t then x else y)
  Ends-if true x y hx hy = hx
  Ends-if false x y hx hy = hy

  -- One round, where the rest of the loop ends.
  round-Ends :
      (fuel offset : ℕ) (s : LoadState) (o : Outcome)
      → outcome (read_log_record os d f offset) ≡ o
      → ((next : ℕ) (s' : LoadState) → offset < next → Ends (load_loop os fuel d f next s'))
      → Ends (load_loop os (suc fuel) d f offset s)
  unfolding load_loop outcome
  round-Ends fuel offset s (record_read r) e rest =
      let step : 5 ≤ r.size = read_log_record_moves os d f offset r (outcome-read _ r e) in
      rw (load_loop, e) (rest (offset + r.size) _ (omega arith))
  round-Ends fuel offset s end_of_file e rest = rw (load_loop, e) ((s, offset), refl)
  round-Ends fuel offset s damaged e rest = elim (Bool-cases (leb (length b) (offset + 1))) [
    | inl last ↦
        rw (load_loop, e, io_size-content disk d f b opened has, last) ((s, offset + 1), refl)
    | inr more ↦
        rw (load_loop, e, io_size-content disk d f b opened has, more)
          (rest (offset + 1) s (omega arith))
  ]

  -- On a disk that does not fail, with fuel for each byte behind `offset` and one round more, the loop
  -- over an open file comes to an end, whatever the file holds, and throws nothing.
  pub load_loop-Ends :
      (fuel offset : ℕ) (s : LoadState)
      → 0 < fuel
      → length b < fuel + offset
      → Ends (load_loop os fuel d f offset s)
  unfolding load_loop outcome
  load_loop-Ends zero offset s some_fuel enough = absurd (omega arith)
  load_loop-Ends (suc zero) offset s some_fuel enough =
      rw (load_loop, read_log_record_end disk d f b opened has offset (omega arith), outcome)
        ((s, offset), refl)
  load_loop-Ends (suc (suc fuel)) offset s some_fuel enough =
      round-Ends (suc fuel) offset s (outcome (read_log_record os d f offset)) refl
        (λ next s' further. load_loop-Ends (suc fuel) next s' (omega arith) (omega arith))
