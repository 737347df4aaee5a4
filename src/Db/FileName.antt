-- ===== src/Db/FileName.antt =====
-- `DataFile::get_data_file_name` of src/data_file.cpp: the directory, a slash, the file id in nine
-- digits or more, and the suffix.
pub mod Digits
use mathlib.Core.Logic.{dite}
use mathlib.Core.WellFounded.{Acc}
use native.Mathlib.Decide.{dec_le}
use raft_bitcask.Prelude.{
  ℕ, zero, suc, ◌+◌, ◌-◌, ◌*◌, ◌/◌, ◌%◌, ◌≤◌, ◌<◌, ◌≡◌, refl, ap, ◌∙◌, [], ◌∷◌, ◌++◌, length, ◌^◌,
  replicate, arith, take, drop, sym, length-append, take-append_self, drop-append,
}
use raft_bitcask.Prelude.Order.{lt_wf}
use raft_bitcask.Storage.FileSystem.{FilePath}

tenth_shrinks : (n : ℕ) → 10 ≤ n → n / 10 < n
tenth_shrinks n h = omega arith

-- `oss << file_id`
decimal_loop : (n : ℕ) → Acc ◌<◌ n → FilePath
decimal_loop n (Acc.intro _ smaller) =
    dite (dec_le 10 n)
      (λ more. decimal_loop (n / 10) (smaller _ (tenth_shrinks n more)) ++ ((b'0' + n % 10) ∷ []))
      (λ _. (b'0' + n) ∷ [])

pub decimal : ℕ → FilePath
decimal n = decimal_loop n (lt_wf.apply n)

-- `std::setfill('0') << std::setw(9)`
pub padded : FilePath → FilePath
padded digits = replicate (9 - length digits) b'0' ++ digits

abbrev pub data_file_suffix : FilePath
data_file_suffix = b'.' ∷ b'd' ∷ b'a' ∷ b't' ∷ b'a' ∷ []

unfoldable pub get_data_file_name : FilePath → ℕ → FilePath
get_data_file_name dir_path file_id =
    dir_path ++ (b'/' ∷ (padded (decimal file_id) ++ data_file_suffix))

-- The number that digits stand for.
unfoldable pub value_of : ℕ → FilePath → ℕ
value_of acc [] = acc
value_of acc (c ∷ rest) = value_of (acc * 10 + (c - b'0')) rest

value_of-append :
    (acc : ℕ) (front back : FilePath)
    → value_of acc (front ++ back) ≡ value_of (value_of acc front) back
unfolding value_of
value_of-append acc [] back = refl
value_of-append acc (c ∷ front) back = value_of-append (acc * 10 + (c - b'0')) front back

value_of-zeros : (n : ℕ) → value_of 0 (replicate n b'0') ≡ 0
unfolding value_of
value_of-zeros zero = refl
value_of-zeros (suc n) = value_of-zeros n

value_of-decimal_loop : (n : ℕ) (w : Acc ◌<◌ n) → value_of 0 (decimal_loop n w) ≡ n
unfolding value_of decimal_loop
value_of-decimal_loop n (Acc.intro _ smaller) = grind (
  arith,
  λ (h : 10 ≤ n). value_of-decimal_loop (n / 10) (smaller _ (tenth_shrinks n h)),
  λ (h : 10 ≤ n).
      value_of-append 0 (decimal_loop (n / 10) (smaller _ (tenth_shrinks n h)))
        ((b'0' + n % 10) ∷ []),
)

value_of-padded : (n : ℕ) → value_of 0 (padded (decimal n)) ≡ n
unfolding padded decimal
value_of-padded n =
    value_of-append 0 (replicate (9 - length (decimal n)) b'0') (decimal n)
    ∙ ap (λ (acc : ℕ). value_of acc (decimal n)) (value_of-zeros (9 - length (decimal n)))
    ∙ value_of-decimal_loop n (lt_wf.apply n)

-- Two strings with the same ending of five characters have the same front if they are equal.
front-injective : (p q s : FilePath) → length s ≡ 5 → p ++ s ≡ q ++ s → p ≡ q
front-injective p q s size e =
    let front : (t : FilePath) → take (length (t ++ s) - 5) (t ++ s) ≡ t = λ t.
      let n : length (t ++ s) - 5 ≡ length t = omega (arith, length-append t s) in
      ap (λ (k : ℕ). take k (t ++ s)) n ∙ take-append_self t s in
    sym (front p) ∙ ap (λ t. take (length t - 5) t) e ∙ front q

-- Data files with different ids have different names.
pub get_data_file_name-injective :
    (dir_path : FilePath) (a b : ℕ)
    → get_data_file_name dir_path a ≡ get_data_file_name dir_path b
    → a ≡ b
unfolding get_data_file_name
get_data_file_name-injective dir_path a b e =
    let name : ℕ → FilePath = λ n. padded (decimal n) ++ data_file_suffix in
    let names : name a ≡ name b =
      sym (drop-append 1 dir_path (b'/' ∷ name a))
      ∙ ap (drop (length dir_path + 1)) e
      ∙ drop-append 1 dir_path (b'/' ∷ name b) in
    let digits =
      front-injective (padded (decimal a)) (padded (decimal b)) data_file_suffix refl names in
    sym (value_of-padded a) ∙ ap (value_of 0) digits ∙ value_of-padded b

length-decimal_loop : (k n : ℕ) (w : Acc ◌<◌ n) → n < 10 ^ suc k → length (decimal_loop n w) ≤ suc k
unfolding decimal_loop
length-decimal_loop zero n (Acc.intro _ smaller) small =
    let few : n < 10 = omega arith in grind arith
length-decimal_loop (suc k) n (Acc.intro _ smaller) small =
    let next : n / 10 < 10 ^ suc k = omega arith in
    grind (
      arith,
      λ (h : 10 ≤ n). length-decimal_loop k (n / 10) (smaller _ (tenth_shrinks n h)) next,
      λ (h : 10 ≤ n).
          length-append (decimal_loop (n / 10) (smaller _ (tenth_shrinks n h)))
            ((b'0' + n % 10) ∷ []),
    )

-- A 64-bit number has at most twenty digits.
pub length-decimal : (n : ℕ) → n < 2 ^ 64 → length (decimal n) ≤ 20
unfolding decimal
length-decimal n small = length-decimal_loop 19 n (lt_wf.apply n) (omega arith)

length-replicate : (n b : ℕ) → length (replicate n b) ≡ n
length-replicate zero b = refl
length-replicate (suc n) b = ap suc (length-replicate n b)

-- The name of a data file has at least 15 characters behind the directory.
pub length-get_data_file_name :
    (dir_path : FilePath) (file_id : ℕ)
    → length dir_path + 15 ≤ length (get_data_file_name dir_path file_id)
unfolding get_data_file_name padded
length-get_data_file_name dir_path file_id =
    let digits = decimal file_id in
    omega (
      arith,
      length-append dir_path (b'/' ∷ (padded digits ++ data_file_suffix)),
      length-append (padded digits) data_file_suffix,
      length-append (replicate (9 - length digits) b'0') digits,
      length-replicate (9 - length digits) b'0',
    )
