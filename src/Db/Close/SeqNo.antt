-- ===== src/Db/Close/SeqNo.antt =====
-- The file of the sequence number.
use raft_bitcask.Prelude.{ℕ, ◌+◌, ◌≡◌, refl, ap, ◌∙◌, true, some, [], ◌++◌, length, drop, arith}
use raft_bitcask.Common.{Bytes, IsU64, ok}
use raft_bitcask.Codec.Record.{encode}
use raft_bitcask.Storage.FileSystem.{Calls, Reliable, overwrite}
use raft_bitcask.Storage.DataFile.{DataFile, read_log_record}
use raft_bitcask.Storage.DataFile
use raft_bitcask.Storage.DataFile.Reads.{IsReadable, read_log_record-encode}
use raft_bitcask.Storage.DataFile.Writes.{write-content}
use raft_bitcask.Db.{Db}
use raft_bitcask.Db.FileName.{length-decimal}
use raft_bitcask.Db.Close.{seq_no_record, write_seq_no}

pub seq_no_record-IsReadable : (n : ℕ) → IsU64 n → IsReadable (seq_no_record n)
seq_no_record-IsReadable n fits = record {
  some_key = omega arith;
  key_fits = omega arith;
  value_fits = omega (arith, length-decimal n fits);
}

-- On a disk that does not fail, the 64-bit sequence number that `close` writes to an open file, from
-- its start on, is what `read_log_record` finds there, whatever the file held before.
read_log_record-write_seq_no :
    {os : Calls} (disk : Reliable os) (db : Db os) (f : DataFile) (b : Bytes)
    → IsU64 db.seq_no
    → f.is_open ≡ true
    → f.write_off ≡ 0
    → disk.content db.disk f.path ≡ some b
    → read_log_record os (write_seq_no f db).1.disk f 0
      ≡ ok (record {
        log_record = seq_no_record db.seq_no;
        size = length (encode (seq_no_record db.seq_no)).0;
      })
unfolding write_seq_no
read_log_record-write_seq_no {os} disk db f b fits opened front has =
    let bytes = (encode (seq_no_record db.seq_no)).0 in
    let (count, content) = write-content disk db.disk f b bytes opened has in
    let whole : disk.content (DataFile.write os db.disk f bytes).0 f.path
        ≡ some (bytes ++ drop (0 + length bytes) b) =
      content ∙ ap (λ (n : ℕ). some (overwrite n bytes b)) front in
    rw (write_seq_no, count)
      (read_log_record-encode disk (DataFile.write os db.disk f bytes).0 f
        (bytes ++ drop (0 + length bytes) b) opened whole (seq_no_record db.seq_no) []
        (drop (0 + length bytes) b) (seq_no_record-IsReadable db.seq_no fits) refl)
