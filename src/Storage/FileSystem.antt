-- ===== src/Storage/FileSystem.antt =====
-- The system calls under src/io_manager.cpp, which are not part of the repository, as an interface:
-- `Calls` has the operations and `Reliable` their documented behaviour where no device fails.
use mathlib.Core.Option
use raft_bitcask.Prelude.{
  ℕ, ◌+◌, ◌-◌, ◌≡◌, ◌≢◌, Bool, true, Option, some, List, [], ◌++◌, [], length, take, drop,
  replicate, append-nil, take-append_self, drop_beyond, arith,
}
use raft_bitcask.Common.{Bytes}

-- The path of a file, as text.
abbrev pub FilePath : Type 0
FilePath = List ℕ

-- `pwrite` at an offset; a gap behind the end reads as zeros.
abbrev pub overwrite : ℕ → Bytes → Bytes → Bytes
overwrite offset bytes old =
    take offset (old ++ replicate (offset - length old) 0)
    ++ (bytes ++ drop (offset + length bytes) old)

pub record Calls : Type 1 where
  pub Disk : Type 0
  -- `::open(path, O_RDWR | O_CREAT)`: whether there is a descriptor
  pub open_file : Disk → FilePath → Bool × Disk
  -- `fstat`, the size in bytes
  pub file_size : Disk → FilePath → Option ℕ
  -- `pread(fd, buf, count, offset)`: the bytes read
  pub pread : Disk → FilePath → ℕ → ℕ → Option Bytes
  -- `pwrite(fd, buf, count, offset)`: the number of bytes written
  pub pwrite : Disk → FilePath → Bytes → ℕ → Option ℕ × Disk
  -- `fdatasync` and `fsync`
  pub flush : Disk → FilePath → Disk

pub record Reliable (os : Calls) : Type 0 where
  pub content : os.Disk → FilePath → Option Bytes
  pub open-true : (d : os.Disk) (p : FilePath) → (os.open_file d p).0 ≡ true
  pub open-content :
      (d : os.Disk) (p : FilePath)
      → content (os.open_file d p).1 p ≡ some (Option.get_or (content d p) [])
  pub open-other :
      (d : os.Disk) (p q : FilePath) → q ≢ p → content (os.open_file d p).1 q ≡ content d q
  pub file_size-content :
      (d : os.Disk) (p : FilePath) → os.file_size d p ≡ Option.map length (content d p)
  pub pread-content :
      (d : os.Disk) (p : FilePath) (count offset : ℕ)
      → os.pread d p count offset ≡ Option.map (λ b. take count (drop offset b)) (content d p)
  pub pwrite-count :
      (d : os.Disk) (p : FilePath) (b bytes : Bytes) (offset : ℕ)
      → content d p ≡ some b
      → (os.pwrite d p bytes offset).0 ≡ some (length bytes)
  pub pwrite-content :
      (d : os.Disk) (p : FilePath) (b bytes : Bytes) (offset : ℕ)
      → content d p ≡ some b
      → content (os.pwrite d p bytes offset).1 p ≡ some (overwrite offset bytes b)
  pub pwrite-other :
      (d : os.Disk) (p q : FilePath) (bytes : Bytes) (offset : ℕ)
      → q ≢ p
      → content (os.pwrite d p bytes offset).1 q ≡ content d q
  pub flush-content : (d : os.Disk) (p q : FilePath) → content (os.flush d p) q ≡ content d q

-- At the end of the file a write appends.
pub overwrite_end : (bytes old : Bytes) → overwrite (length old) bytes old ≡ old ++ bytes
overwrite_end bytes old =
    let front : take (length old) (old ++ replicate (length old - length old) 0) ≡ old =
      take-append_self old _ in
    let back : drop (length old + length bytes) old ≡ [] = drop_beyond _ old (omega arith) in
    rw (front, back, append-nil)
