-- ===== src/Tests/Storage.antt =====
-- A data file in memory.
use raft_bitcask.Prelude.{◌≡◌, refl, true, some, [], ◌∷◌, ◌++◌, length, arith}
use raft_bitcask.Common.{Bytes, ok, normal}
use raft_bitcask.Codec.Record.{LogRecord, encode}
use raft_bitcask.Storage.DataFile.{DataFile, read_log_record}
use raft_bitcask.Storage.DataFile.Reads.{IsReadable, read_log_record-encode}
use raft_bitcask.Tests.Disk.{memory, memory_reliable}

abbrev first : LogRecord
first = record { key = 1 ∷ []; value = 7 ∷ 7 ∷ []; type = normal }

abbrev path : Bytes
path = 47 ∷ 100 ∷ []

abbrev file : DataFile
file = record { file_id = 0; write_off = 2; path = path; is_open = true }

abbrev bytes : Bytes
bytes = 9 ∷ 9 ∷ ((encode first).0 ++ (5 ∷ []))

first-IsReadable : IsReadable first
first-IsReadable = omega arith

read_log_record-encode_example :
    read_log_record memory (λ _. some bytes) file 2
    ≡ ok (record { log_record = first; size = length (encode first).0 })
read_log_record-encode_example =
    read_log_record-encode memory_reliable (λ _. some bytes) file bytes refl refl first (9 ∷ 9 ∷ [])
      (5 ∷ []) first-IsReadable refl
