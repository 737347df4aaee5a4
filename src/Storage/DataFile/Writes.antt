-- ===== src/Storage/DataFile/Writes.antt =====
-- What `write` does on a disk that does not fail.
use raft_bitcask.Prelude.{ℕ, ◌+◌, ◌≡◌, ◌≢◌, ap, ◌∙◌, true, some, ◌++◌, length, arith}
use raft_bitcask.Common.{Bytes, ok}
use raft_bitcask.Storage.FileSystem.{FilePath, Calls, Reliable, overwrite, overwrite_end}
use raft_bitcask.Storage.DataFile.{DataFile, write}

module _ {os : Calls} (disk : Reliable os) (d : os.Disk) (f : DataFile) (b bytes : Bytes)
    (opened : f.is_open ≡ true) (has : disk.content d f.path ≡ some b) where
  -- `write` puts the bytes over the file's content at the write offset, moves the offset behind
  -- them, and returns their number.
  pub write-content :
      ((write os d f bytes).1
        ≡ ok (record f { write_off = f.write_off + length bytes }, length bytes))
      × (disk.content (write os d f bytes).0 f.path ≡ some (overwrite f.write_off bytes b))
  unfolding write
  write-content = (
    ground (arith, disk.pwrite-count d f.path b bytes f.write_off has),
    ground (
      arith,
      disk.pwrite-count d f.path b bytes f.write_off has,
      disk.pwrite-content d f.path b bytes f.write_off has,
    ),
  )

  -- At the end of the file it appends.
  pub write_end :
      f.write_off ≡ length b → disk.content (write os d f bytes).0 f.path ≡ some (b ++ bytes)
  write_end at_end =
      write-content.1 ∙ ap some (ap (λ (n : ℕ). overwrite n bytes b) at_end ∙ overwrite_end bytes b)

  -- No other file changes.
  pub write_other :
      (q : FilePath) → q ≢ f.path → disk.content (write os d f bytes).0 q ≡ disk.content d q
  unfolding write
  write_other q other =
      rw (opened, disk.pwrite-count d f.path b bytes f.write_off has)
        (disk.pwrite-other d f.path q bytes f.write_off other)
