-- ===== src/Storage/Utils.antt =====
-- The functions of src/utils.cpp on files: `copy_file`, `create_directory` and `file_exists`. The
-- streams of the C library and the system calls under them are the interface `Streams`.
pub mod Copy
use Prim.Native.String.{String}
use raft_bitcask.Prelude.{
  ℕ, zero, suc, ◌+◌, Bool, true, false, not, ◌&&◌, Option, none, some, List, [], ◌∷◌, ◌++◌, length,
  ◌==◌, if◌then◌else◌,
}
use raft_bitcask.Common.{Bytes, Result, ok, throw, bitcask_exception}
use raft_bitcask.Storage.FileSystem.{FilePath}

pub record Streams (Disk : Type 0) : Type 0 where
  -- `fopen(path, "rb")`: whether there is a stream
  pub fopen_read : Disk → FilePath → Bool
  -- `fopen(path, "wb")`: whether there is a stream, and the file made empty
  pub fopen_write : Disk → FilePath → Bool × Disk
  -- `fread` of at most so many bytes, where the stream stands at an offset
  pub fread : Disk → FilePath → ℕ → ℕ → Bytes
  -- `fwrite` where the stream stands at an offset: the number of bytes written
  pub fwrite : Disk → FilePath → Bytes → ℕ → ℕ × Disk
  pub ferror : Disk → FilePath → Bool
  -- `fflush`: whether it returns 0
  pub fflush : Disk → FilePath → Bool × Disk
  -- `mkdir`, whose result is not looked at
  pub mkdir : Disk → FilePath → Disk
  -- `stat`: whether the file is regular, if there is one
  pub stat : Disk → FilePath → Option Bool

abbrev pub error : {Disk : Type 0} → String → Disk → Result (Unit {0}) × Disk
error message d = (throw (bitcask_exception message), d)

abbrev pub is_empty_path : FilePath → Bool
is_empty_path [] = true
is_empty_path (c ∷ rest) = false

-- `sizeof(buffer)`
abbrev pub buffer_size : ℕ
buffer_size = 8192

-- The values of `current_path`: the text in front of each separator but one at the start, and then the
-- whole.
unfoldable pub dir_prefixes : FilePath → FilePath → List FilePath
dir_prefixes front [] = front ∷ []
dir_prefixes front (c ∷ rest) =
    let longer = dir_prefixes (front ++ (c ∷ [])) rest in
    if (c == b'/') && not (is_empty_path front) then front ∷ longer else longer

module _ {Disk : Type 0} (io : Streams Disk) where
  -- Behind the loop of `copy_file`. Messages are without the path.
  unfoldable pub flush_copy : FilePath → Disk → Result (Unit {0}) × Disk
  flush_copy dst d =
      let (done, d') = io.fflush d dst in
      if done then (ok tt, d') else error "Failed to flush destination file" d'

  -- The `while` loop; both streams stand at the same offset.
  unfoldable pub copy_loop : ℕ → FilePath → FilePath → ℕ → Disk → Option (Result (Unit {0}) × Disk)
  unfolding flush_copy
  copy_loop zero src dst offset d = none
  copy_loop (suc fuel) src dst offset d =
      let buffer = io.fread d src offset buffer_size in
      let (written, d') = io.fwrite d dst buffer offset in
      let later = copy_loop fuel src dst (offset + length buffer) d' in
      if length buffer == 0
      then some (flush_copy dst d)
      else if not (written == length buffer)
      then some (error "Failed to write to destination file" d')
      else if io.ferror d' src
      then some (error "Error reading from source file" d')
      else if io.ferror d' dst
      then some (error "Error writing to destination file" d')
      else later

  unfoldable pub copy_file : ℕ → Disk → FilePath → FilePath → Option (Result (Unit {0}) × Disk)
  unfolding copy_loop
  copy_file fuel d src dst =
      let (opened, d') = io.fopen_write d dst in
      let copied = copy_loop fuel src dst 0 d' in
      if not (io.fopen_read d src)
      then some (error "Failed to open source file" d)
      else if not opened
      then some (error "Failed to open destination file" d')
      else copied

  unfoldable pub make_directories : List FilePath → Disk → Disk
  make_directories [] d = d
  make_directories (p ∷ rest) d =
      make_directories rest (if is_empty_path p then d else io.mkdir d p)

  unfoldable pub create_directory : Disk → FilePath → Disk
  unfolding make_directories dir_prefixes
  create_directory d dir_path = make_directories (dir_prefixes [] dir_path) d

  unfoldable pub file_exists : Disk → FilePath → Bool
  file_exists d path = elim (io.stat d path) [ none ↦ false | some regular ↦ regular ]
