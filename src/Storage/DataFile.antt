-- ===== src/Storage/DataFile.antt =====
-- src/data_file.cpp over `FileIOManager` of src/io_manager.cpp: a data file that is open, and the
-- reads and writes of log records. The mutex of the class makes each call one step.
pub mod Reads
pub mod Writes
use raft_bitcask.Prelude.{
  ℕ, ◌+◌, ◌-◌, ◌*◌, ◌%◌, ◌^◌, min, Bool, true, false, ◌&&◌, ◌||◌, not, Option, none, some, [], ◌∷◌,
  length, take, drop, ltb, leb, ◌==◌, if◌then◌else◌,
}
use raft_bitcask.Common.{
  Bytes, Error, Result, ok, throw, ◌>>=◌, invalid_crc, read_data_file_eof, bitcask_exception,
  max_log_record_header_size, normal,
}
use raft_bitcask.Codec.Record.{
  LogRecord, LogRecordPos, LogRecordHeader, encode, get_crc, encode_pos, decode_log_record_header,
}
use raft_bitcask.Storage.FileSystem.{FilePath, Calls}

-- `DataFile` with its `FileIOManager`: the path stands for the descriptor.
pub record DataFile : Type 0 where
  pub file_id : ℕ
  pub write_off : ℕ
  pub path : FilePath
  pub is_open : Bool

pub record ReadLogRecord : Type 0 where
  pub log_record : LogRecord
  pub size : ℕ

abbrev pub max_record_size : ℕ
max_record_size = 64 * 1024 * 1024

-- Key and value out of the bytes behind the header; either may be cut short by the end of file.
unfoldable pub split_kv : LogRecordHeader → Bytes → LogRecord
split_kv header kv_buf =
    let key_actual_size = min header.key_size (length kv_buf) in
    record {
      key =
          if ltb 0 header.key_size
          then (if leb header.key_size (length kv_buf) then take header.key_size kv_buf else kv_buf)
          else [];
      value =
          if ltb 0 header.value_size && ltb key_actual_size (length kv_buf)
          then take (min header.value_size (length kv_buf - key_actual_size))
              (drop key_actual_size kv_buf)
          else [];
      type = header.type;
    }

-- The comparison of checksums, made only on a record that is complete.
unfoldable pub check_crc : LogRecordHeader → LogRecord → Result (Unit {0})
check_crc header r =
    if (length r.key == header.key_size) && (length r.value == header.value_size)
    then (if not (get_crc r == header.crc)
        then (if (header.crc == 0) && not (get_crc r == 0)
            then throw invalid_crc
            else if (header.crc == 0xdeadbeef) || (header.crc == 0x12345678)
            then throw invalid_crc
            else ok tt)
        else ok tt)
    else ok tt

-- What `io_manager_->read` gave, against what was asked for.
unfoldable pub complete_read : ℕ → ℕ → Option Bytes → Result Bytes
complete_read n actual none = throw (bitcask_exception "Failed to read from file")
complete_read n actual (some bytes) =
    if not (length bytes == actual) && (n == actual)
    then throw (bitcask_exception "Incomplete read")
    else ok bytes

-- `if (header_buf.size() < 5) throw ReadDataFileEOFError()`
unfoldable pub at_least_five : Bytes → Result (Unit {0})
at_least_five buf = if ltb (length buf) 5 then throw read_data_file_eof else ok tt

module _ (os : Calls) where
  -- `io_manager_->size()`
  unfoldable pub io_size : os.Disk → DataFile → Result ℕ
  io_size d f =
      if f.is_open
      then elim (os.file_size d f.path) [
        | none ↦ throw (bitcask_exception "Failed to get file size")
        | some n ↦ ok n
      ]
      else throw (bitcask_exception "Failed to get file size")

  -- `DataFile::read_n_bytes`
  unfoldable pub read_n_bytes : os.Disk → DataFile → ℕ → ℕ → Result Bytes
  unfolding io_size complete_read
  read_n_bytes d f n offset =
      if n == 0
      then ok []
      else (io_size d f >>= λ file_size.
          if leb file_size offset
          then throw read_data_file_eof
          else (let actual = min n (file_size - offset) in
              if actual == 0
              then throw read_data_file_eof
              else complete_read n actual (os.pread d f.path actual offset)))

  -- The part of `read_log_record` behind the decoded header.
  unfoldable pub read_body : os.Disk → DataFile → ℕ → ℕ → LogRecordHeader × ℕ → Result ReadLogRecord
  read_body d f offset file_size (header, header_size) =
      if (header.crc == 0) && ((header.key_size == 0) && (header.value_size == 0))
      then throw read_data_file_eof
      else if ltb max_record_size header.key_size || ltb max_record_size header.value_size
      then throw (bitcask_exception "Record size too large, data may be corrupted")
      else if ltb file_size (offset + header_size)
      then throw (bitcask_exception "Header extends beyond file size, data may be corrupted")
      else do
        kv_buf ←
            read_n_bytes d f ((header.key_size + header.value_size) % 2 ^ 32) (offset + header_size)
        let r = split_kv header kv_buf
        _ ← check_crc header r
        ok (record { log_record = r; size = header_size + header.key_size + header.value_size })

  -- `DataFile::read_log_record`
  unfoldable pub read_log_record : os.Disk → DataFile → ℕ → Result ReadLogRecord
  read_log_record d f offset = io_size d f >>= λ file_size.
      let header_bytes = min max_log_record_header_size (file_size - offset) in
      if leb file_size offset || ltb header_bytes 5 then throw read_data_file_eof else (do
        header_buf ← read_n_bytes d f header_bytes offset
        _ ← at_least_five header_buf
        header ← decode_log_record_header header_buf
        read_body d f offset file_size header)

  -- `DataFile::write`
  unfoldable pub write : os.Disk → DataFile → Bytes → os.Disk × Result (DataFile × ℕ)
  write d f bytes =
      if f.is_open
      then (let (count, d') = os.pwrite d f.path bytes f.write_off in
          elim count [
            | none ↦ (d', throw (bitcask_exception "Failed to write data to file"))
            | some n ↦ (d', ok (record f { write_off = f.write_off + n }, n))
          ])
      else (d, throw (bitcask_exception "Failed to write data to file"))

  -- `DataFile::write_hint_record`
  unfoldable pub write_hint_record :
      os.Disk → DataFile → Bytes → LogRecordPos → os.Disk × Result (DataFile × ℕ)
  unfolding write
  write_hint_record d f key pos =
      let hint_record : LogRecord = record { key = key; value = encode_pos pos; type = normal } in
      write d f (encode hint_record).0
