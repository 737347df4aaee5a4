-- ===== src/Storage/Utils/Copy.antt =====
-- What `copy_file` and `create_directory` of src/utils.cpp do where no device fails.
use Prim.Native.String.{String}
use raft_bitcask.Prelude.{
  ℕ, zero, suc, ◌+◌, ◌≤◌, ◌<◌, ◌≡◌, ◌≢◌, refl, sym, ap, ◌∙◌, Bool, true, false, not, Option, none,
  some, List, [], ◌∷◌, ◌++◌, length, take, drop, take_all, take-min, length-take, length-drop, min,
  ◌-◌, ◌==◌, if◌then◌else◌, arith, Bool-cases, inl, inr,
}
use raft_bitcask.Common.{Bytes, Result, ok}
use raft_bitcask.Storage.FileSystem.{FilePath, overwrite, overwrite_end}
use raft_bitcask.Storage.Utils.{
  Streams, error, is_empty_path, buffer_size, flush_copy, copy_loop, copy_file, make_directories,
  dir_prefixes, create_directory, file_exists,
}

abbrev pub is_there : Option Bytes → Bool
is_there none = false
is_there (some b) = true

-- The documented behaviour of the C library where no device fails.
pub record ReliableStreams {Disk : Type 0} (io : Streams Disk)
    (content : Disk → FilePath → Option Bytes) : Type 0 where
  pub fopen_read-content : (d : Disk) (p : FilePath) → io.fopen_read d p ≡ is_there (content d p)
  pub fopen_write-true : (d : Disk) (p : FilePath) → (io.fopen_write d p).0 ≡ true
  pub fopen_write-content : (d : Disk) (p : FilePath) → content (io.fopen_write d p).1 p ≡ some []
  pub fopen_write-other :
      (d : Disk) (p q : FilePath) → q ≢ p → content (io.fopen_write d p).1 q ≡ content d q
  pub fread-content :
      (d : Disk) (p : FilePath) (offset count : ℕ) (b : Bytes)
      → content d p ≡ some b
      → io.fread d p offset count ≡ take count (drop offset b)
  pub fwrite-count :
      (d : Disk) (p : FilePath) (bytes : Bytes) (offset : ℕ)
      → (io.fwrite d p bytes offset).0 ≡ length bytes
  pub fwrite-content :
      (d : Disk) (p : FilePath) (bytes : Bytes) (offset : ℕ) (b : Bytes)
      → content d p ≡ some b
      → content (io.fwrite d p bytes offset).1 p ≡ some (overwrite offset bytes b)
  pub fwrite-other :
      (d : Disk) (p q : FilePath) (bytes : Bytes) (offset : ℕ)
      → q ≢ p
      → content (io.fwrite d p bytes offset).1 q ≡ content d q
  pub ferror-false : (d : Disk) (p : FilePath) → io.ferror d p ≡ false
  pub fflush-true : (d : Disk) (p : FilePath) → (io.fflush d p).0 ≡ true
  pub fflush-content : (d : Disk) (p q : FilePath) → content (io.fflush d p).1 q ≡ content d q
  pub mkdir-content : (d : Disk) (p q : FilePath) → content (io.mkdir d p) q ≡ content d q
  pub stat-content :
      (d : Disk) (p : FilePath)
      → (elim (io.stat d p) as (λ _. Bool) [ none ↦ false | some regular ↦ regular ])
        ≡ is_there (content d p)

split_take : (i n : ℕ) (b : Bytes) → take i b ++ take n (drop i b) ≡ take (i + n) b
split_take zero n b = ap (λ (k : ℕ). take k b) (omega arith)
split_take (suc i) zero [] = sym (take_all (suc i + 0) [] (omega arith))
split_take (suc i) (suc n) [] = sym (take_all (suc i + suc n) [] (omega arith))
split_take (suc i) n (x ∷ b) =
    let e : suc i + n ≡ suc (i + n) = omega arith in rw e (ap (λ t. x ∷ t) (split_take i n b))

equal_zero : (n : ℕ) → (n == 0) ≡ true → n ≡ 0
equal_zero n e = ground arith

nothing_left :
    (chunk rest total offset : ℕ)
    → (chunk == 0) ≡ true
    → chunk ≡ min buffer_size rest
    → rest ≡ total - offset
    → total ≤ offset
nothing_left chunk rest total offset e size left = omega (arith, equal_zero chunk e, size, left)

some_left : (n : ℕ) → (n == 0) ≡ false → n ≢ 0
some_left n e = ground arith

-- The file of a path stays as it is, however the run ends.
pub data IsApart {Disk : Type 0} (content : Disk → FilePath → Option Bytes) (q : FilePath)
    (d : Disk) : Option (Result (Unit {0}) × Disk) → Type 0 where
  no_end : IsApart content q d none
  ended :
      {x : Result (Unit {0}) × Disk} → content x.1 q ≡ content d q → IsApart content q d (some x)

module _ {Disk : Type 0} (io : Streams Disk) (content : Disk → FilePath → Option Bytes)
    (reliable : ReliableStreams io content) where
  -- The copy succeeds, and has the bytes.
  abbrev pub IsCopied : FilePath → Bytes → Option (Result (Unit {0}) × Disk) → Type 0
  IsCopied dst b o = (d : Disk) × (o ≡ some (ok tt, d)) × (content d dst ≡ some b)

  copy_loop_done :
      (fuel : ℕ) (src dst : FilePath) (offset : ℕ) (d : Disk)
      → (length (io.fread d src offset buffer_size) == 0) ≡ true
      → copy_loop io (suc fuel) src dst offset d ≡ some (ok tt, (io.fflush d dst).1)
  unfolding copy_loop flush_copy
  copy_loop_done fuel src dst offset d nothing =
      rw (copy_loop, nothing, flush_copy, reliable.fflush-true d dst) refl

  copy_loop_round :
      (fuel : ℕ) (src dst : FilePath) (offset : ℕ) (d : Disk) (chunk : Bytes)
      → io.fread d src offset buffer_size ≡ chunk
      → (length chunk == 0) ≡ false
      → copy_loop io (suc fuel) src dst offset d
        ≡ copy_loop io fuel src dst (offset + length chunk) (io.fwrite d dst chunk offset).1
  unfolding copy_loop
  copy_loop_round fuel src dst offset d chunk read something =
      let d' = (io.fwrite d dst chunk offset).1 in
      let whole : (length chunk == length chunk) ≡ true = ground arith in
      rw
        (
          copy_loop,
          read,
          something,
          reliable.fwrite-count d dst chunk offset,
          whole,
          reliable.ferror-false d' src,
          reliable.ferror-false d' dst,
        )
        refl

  copy_loop-IsCopied :
      (fuel : ℕ) (src dst : FilePath) (offset : ℕ) (d : Disk) (b : Bytes)
      → src ≢ dst
      → content d src ≡ some b
      → content d dst ≡ some (take offset b)
      → offset ≤ length b
      → length b < fuel + offset
      → IsCopied dst b (copy_loop io fuel src dst offset d)
  copy_loop-IsCopied zero src dst offset d b apart has so_far inside enough = absurd (omega arith)
  copy_loop-IsCopied (suc fuel) src dst offset d b apart has so_far inside enough =
      let chunk = take buffer_size (drop offset b) in
      let read : io.fread d src offset buffer_size ≡ chunk =
        reliable.fread-content d src offset buffer_size b has in
      let size = length-take buffer_size (drop offset b) in
      let left = length-drop offset b in
      elim (Bool-cases (length chunk == 0)) [
        | inl nothing ↦
            let all : take offset b ≡ b =
              take_all offset b (nothing_left _ _ _ _ nothing size left) in
            (
              (io.fflush d dst).1,
              copy_loop_done fuel src dst offset d
                  (ap (λ (t : Bytes). length t == 0) read ∙ nothing),
              reliable.fflush-content d dst dst ∙ so_far ∙ ap some all,
            )
        | inr something ↦
            let d' = (io.fwrite d dst chunk offset).1 in
            let front = take offset b in
            let front_size : length front ≡ offset = omega (arith, length-take offset b, inside) in
            let more : length chunk ≢ 0 = some_left _ something in
            let part : chunk ≡ take (length chunk) (drop offset b) = sym (
              ap (λ (k : ℕ). take k (drop offset b)) size ∙ take-min buffer_size (drop offset b)) in
            let written : content d' dst ≡ some (take (offset + length chunk) b) =
              reliable.fwrite-content d dst chunk offset front so_far
              ∙ ap (λ (k : ℕ). some (overwrite k chunk front)) (sym front_size)
              ∙ ap some (
                  overwrite_end chunk front
                  ∙ ap (λ t. front ++ t) part
                  ∙ split_take offset (length chunk) b) in
            let (out, e, done) =
              copy_loop-IsCopied fuel src dst (offset + length chunk) d' b apart
                (reliable.fwrite-other d dst src chunk offset apart ∙ has) written
                (omega (arith, size, left, inside)) (omega (arith, more, enough)) in
            (out, copy_loop_round fuel src dst offset d chunk read something ∙ e, done)
      ]

  IsApart-if :
      (q : FilePath) (d : Disk) (t : Bool) (x y : Option (Result (Unit {0}) × Disk))
      → IsApart content q d x
      → IsApart content q d y
      → IsApart content q d (if t then x else y)
  IsApart-if q d true x y hx hy = hx
  IsApart-if q d false x y hx hy = hy

  IsApart-from :
      (q : FilePath) (d d' : Disk) (o : Option (Result (Unit {0}) × Disk))
      → content d' q ≡ content d q
      → IsApart content q d' o
      → IsApart content q d o
  IsApart-from q d d' none e h = no_end
  IsApart-from q d d' (some x) e (ended h) = ended (h ∙ e)

  flush_copy-IsApart :
      (q dst : FilePath) (d : Disk) → IsApart content q d (some (flush_copy io dst d))
  unfolding flush_copy
  flush_copy-IsApart q dst d = elim (Bool-cases (io.fflush d dst).0) [
    | inl e ↦ rw (flush_copy, e) (ended (reliable.fflush-content d dst q))
    | inr e ↦ rw (flush_copy, e) (ended (reliable.fflush-content d dst q))
  ]

  copy_loop-IsApart :
      (fuel : ℕ) (src dst q : FilePath) (offset : ℕ) (d : Disk)
      → q ≢ dst
      → IsApart content q d (copy_loop io fuel src dst offset d)
  unfolding copy_loop
  copy_loop-IsApart zero src dst q offset d apart = no_end
  copy_loop-IsApart (suc fuel) src dst q offset d apart =
      let chunk = io.fread d src offset buffer_size in
      let d' = (io.fwrite d dst chunk offset).1 in
      let same : content d' q ≡ content d q = reliable.fwrite-other d dst q chunk offset apart in
      let failed : (message : String) → IsApart content q d (some (error message d')) =
        λ message. ended same in
      IsApart-if q d (length chunk == 0) (some (flush_copy io dst d)) _ (flush_copy-IsApart q dst d)
        (IsApart-if q d (not ((io.fwrite d dst chunk offset).0 == length chunk)) _ _
          (failed "Failed to write to destination file")
          (IsApart-if q d (io.ferror d' src) _ _ (failed "Error reading from source file") (
            IsApart-if q d (io.ferror d' dst) _ _ (failed "Error writing to destination file") (
              IsApart-from q d d' _ same
                (copy_loop-IsApart fuel src dst q (offset + length chunk) d' apart)))))

  -- A copy leaves other files alone.
  pub copy_file-IsApart :
      (fuel : ℕ) (d : Disk) (src dst q : FilePath)
      → q ≢ dst
      → IsApart content q d (copy_file io fuel d src dst)
  unfolding copy_file
  copy_file-IsApart fuel d src dst q apart =
      let d' = (io.fopen_write d dst).1 in
      let same : content d' q ≡ content d q = reliable.fopen_write-other d dst q apart in
      let unopened : IsApart content q d (some (error "Failed to open source file" d)) =
        ended refl in
      let failed : IsApart content q d (some (error "Failed to open destination file" d')) =
        ended same in
      IsApart-if q d (not (io.fopen_read d src)) _ _ unopened (
        IsApart-if q d (not (io.fopen_write d dst).0) _ _ failed
          (IsApart-from q d d' _ same (copy_loop-IsApart fuel src dst q 0 d' apart)))

  -- A copy to another path, with a round for each byte and one more, succeeds.
  pub copy_file-IsCopied :
      (fuel : ℕ) (d : Disk) (src dst : FilePath) (b : Bytes)
      → src ≢ dst
      → content d src ≡ some b
      → length b < fuel
      → IsCopied dst b (copy_file io fuel d src dst)
  unfolding copy_file
  copy_file-IsCopied fuel d src dst b apart has enough =
      let d' = (io.fopen_write d dst).1 in
      let readable : io.fopen_read d src ≡ true =
        reliable.fopen_read-content d src ∙ ap is_there has in
      let (out, e, done) =
        copy_loop-IsCopied fuel src dst 0 d' b apart
          (reliable.fopen_write-other d dst src apart ∙ has) (reliable.fopen_write-content d dst)
          (omega arith) (omega (arith, enough)) in
      (out, rw (copy_file, readable, reliable.fopen_write-true d dst) e, done)

  make_directories-content :
      (ps : List FilePath) (d : Disk) (q : FilePath)
      → content (make_directories io ps d) q ≡ content d q
  unfolding make_directories
  make_directories-content [] d q = refl
  make_directories-content (p ∷ ps) d q = make_directories-content ps _ q ∙ made (is_empty_path p)
    where
      made : (t : Bool) → content (if t then d else io.mkdir d p) q ≡ content d q
      made true = refl
      made false = reliable.mkdir-content d p q

  pub create_directory-content :
      (d : Disk) (p q : FilePath) → content (create_directory io d p) q ≡ content d q
  unfolding create_directory
  create_directory-content d p q = make_directories-content (dir_prefixes [] p) d q

  pub file_exists-content : (d : Disk) (p : FilePath) → file_exists io d p ≡ is_there (content d p)
  unfolding file_exists
  file_exists-content d p = reliable.stat-content d p
