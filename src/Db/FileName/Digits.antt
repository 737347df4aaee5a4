-- ===== src/Db/FileName/Digits.antt =====
-- The characters of a decimal number in src/data_file.cpp.
use mathlib.Core.Logic.{dite}
use mathlib.Core.WellFounded.{Acc}
use native.Mathlib.Decide.{dec_le}
use raft_bitcask.Prelude.{
  ℕ, ◌+◌, ◌/◌, ◌%◌, ◌≤◌, ◌<◌, ◌≡◌, [], ◌∷◌, ◌++◌, length, length-append, arith,
}
use raft_bitcask.Prelude.Order.{lt_wf}
use raft_bitcask.Storage.FileSystem.{FilePath}
use raft_bitcask.Db.FileName.{tenth_shrinks, decimal_loop, decimal, value_of, value_of-decimal_loop}

abbrev pub AreDigits : FilePath → Type 0
AreDigits [] = Unit
AreDigits (c ∷ cs) = (48 ≤ c) × (c ≤ 57) × AreDigits cs

AreDigits-snoc :
    (cs : FilePath) (c : ℕ) → AreDigits cs → 48 ≤ c → c ≤ 57 → AreDigits (cs ++ (c ∷ []))
AreDigits-snoc [] c d low high = (low, high, tt)
AreDigits-snoc (x ∷ xs) c (lo, hi, d) low high = (lo, hi, AreDigits-snoc xs c d low high)

dite-AreDigits :
    {A : Type 0} (decision : Dec A) (x : A → FilePath) (y : ¬ A → FilePath)
    → ((h : A) → AreDigits (x h))
    → ((h : ¬ A) → AreDigits (y h))
    → AreDigits (dite decision x y)
dite-AreDigits (yes h) x y hx hy = hx h
dite-AreDigits (no h) x y hx hy = hy h

decimal_loop-AreDigits : (n : ℕ) (w : Acc ◌<◌ n) → AreDigits (decimal_loop n w)
unfolding decimal_loop
decimal_loop-AreDigits n (Acc.intro _ smaller) =
    dite-AreDigits (dec_le 10 n)
      (λ more. decimal_loop (n / 10) (smaller _ (tenth_shrinks n more)) ++ ((b'0' + n % 10) ∷ []))
      (λ _. (b'0' + n) ∷ [])
      (λ more.
        AreDigits-snoc (decimal_loop (n / 10) (smaller _ (tenth_shrinks n more))) (b'0' + n % 10)
          (decimal_loop-AreDigits (n / 10) (smaller _ (tenth_shrinks n more))) (omega arith)
          (omega arith))
      (λ few. (omega arith, omega (arith, few), tt))

pub decimal-AreDigits : (n : ℕ) → AreDigits (decimal n)
unfolding decimal
decimal-AreDigits n = decimal_loop-AreDigits n (lt_wf.apply n)

decimal_loop_some : (n : ℕ) (w : Acc ◌<◌ n) → 0 < length (decimal_loop n w)
unfolding decimal_loop
decimal_loop_some n (Acc.intro _ smaller) = grind (
  arith,
  λ (h : 10 ≤ n).
      length-append (decimal_loop (n / 10) (smaller _ (tenth_shrinks n h))) ((b'0' + n % 10) ∷ []),
)

pub decimal_some : (n : ℕ) → 0 < length (decimal n)
unfolding decimal
decimal_some n = decimal_loop_some n (lt_wf.apply n)

pub value_of-decimal : (n : ℕ) → value_of 0 (decimal n) ≡ n
unfolding decimal
value_of-decimal n = value_of-decimal_loop n (lt_wf.apply n)
