-- ===== src/Tests/Disk.antt =====
-- A disk in memory: a function from paths to contents, on which no call fails.
use mathlib.Core.Option
use raft_bitcask.Prelude.{
  ℕ, ◌≡◌, ◌≢◌, refl, ap, ◌∙◌, Option, none, some, [], length, take, drop, if◌then◌else◌, arith,
  true,
}
use raft_bitcask.Common.{Bytes}
use raft_bitcask.Index.KeyOrder.{key_eq, key_eq_self, eq_of_key_eq}
use raft_bitcask.Storage.FileSystem.{FilePath, Calls, Reliable, overwrite}

abbrev Files : Type 0
Files = FilePath → Option Bytes

abbrev pub update : Files → FilePath → Bytes → Files
update d p b q = if key_eq q p then some b else d q

abbrev pub memory : Calls
memory = record {
  Disk = Files;
  open_file = λ d p. (true, update d p (Option.get_or (d p) []));
  file_size = λ d p. Option.map length (d p);
  pread = λ d p count offset. Option.map (λ b. take count (drop offset b)) (d p);
  pwrite = λ d p bytes offset. (
    Option.map (λ b. length bytes) (d p),
    update d p (overwrite offset bytes (Option.get_or (d p) [])),
  );
  flush = λ d p. d;
}

pub update_self : (d : Files) (p : FilePath) (b : Bytes) → update d p b p ≡ some b
update_self d p b = rw (key_eq_self p)

pub update_other : (d : Files) (p q : FilePath) (b : Bytes) → q ≢ p → update d p b q ≡ d q
update_other d p q b other = ground (arith, eq_of_key_eq q p)

pub pwrite_self :
    (d : Files) (p : FilePath) (b bytes : Bytes) (offset : ℕ)
    → d p ≡ some b
    → (memory.pwrite d p bytes offset).1 p ≡ some (overwrite offset bytes b)
pwrite_self d p b bytes offset has =
    update_self d p _ ∙ ap (λ o. some (overwrite offset bytes (Option.get_or o []))) has

pub pwrite_count :
    (d : Files) (p : FilePath) (b bytes : Bytes) (offset : ℕ)
    → d p ≡ some b
    → (memory.pwrite d p bytes offset).0 ≡ some (length bytes)
pwrite_count d p b bytes offset has = rw has

abbrev pub memory_reliable : Reliable memory
memory_reliable = record {
  content = λ d p. d p;
  open-true = λ d p. refl;
  open-content = λ d p. update_self d p _;
  open-other = λ d p q other. update_other d p q _ other;
  file_size-content = λ d p. refl;
  pread-content = λ d p count offset. refl;
  pwrite-count = pwrite_count;
  pwrite-content = pwrite_self;
  pwrite-other = λ d p q bytes offset other. update_other d p q _ other;
  flush-content = λ d p q. refl;
}

-- `::remove`
abbrev pub remove_file : Files → FilePath → Files
remove_file d p q = if key_eq q p then none else d q

pub remove_other : (d : Files) (p q : FilePath) → q ≢ p → remove_file d p q ≡ d q
remove_other d p q other = ground (arith, eq_of_key_eq q p)
