-- ===== src/Redis/Server/Numbers.antt =====
-- `std::stoi` on the numbers of src/redis_server.cpp.
use raft_bitcask.Prelude.{
  ℕ, ◌+◌, ◌-◌, ◌*◌, ◌<◌, ◌≡◌, ◌^◌, refl, Bool, true, false, ◌&&◌, ◌||◌, Option, none, some, [], ◌∷◌,
  length, ltb, leb, ◌==◌, if◌then◌else◌, arith,
}
use raft_bitcask.Common.{Bytes}
use raft_bitcask.Db.FileName.{decimal, value_of}
use raft_bitcask.Db.FileName.Digits.{AreDigits, decimal-AreDigits, decimal_some, value_of-decimal}

-- A value of `int` by its sign.
pub data Number : Type 0 where
  plus : ℕ → Number
  minus : ℕ → Number

-- `isspace` and `isdigit`
abbrev pub is_space : ℕ → Bool
is_space c = (c == 32) || (leb 9 c && leb c 13)

abbrev pub is_digit : ℕ → Bool
is_digit c = leb 48 c && leb c 57

-- The digits in front; none where there is not one.
unfoldable pub digits : Bytes → Bool → ℕ → Option ℕ
digits [] seen acc = if seen then some acc else none
digits (c ∷ cs) seen acc =
    let rest = digits cs true (acc * 10 + (c - 48)) in
    if is_digit c then rest else if seen then some acc else none

-- The sign and the range of `int`.
unfoldable pub signed : Bytes → Option Number
unfolding digits
signed [] = none
signed (c ∷ cs) =
    if c == 45
    then elim (digits cs false 0) [
      | none ↦ none
      | some n ↦ if leb n (2 ^ 31) then some (minus n) else none
    ]
    else elim (if c == 43 then digits cs false 0 else digits (c ∷ cs) false 0) [
      | none ↦ none
      | some n ↦ if ltb n (2 ^ 31) then some (plus n) else none
    ]

-- `std::stoi`: none where it throws.
unfoldable pub stoi : Bytes → Option Number
unfolding signed
stoi [] = none
stoi (c ∷ cs) = let rest = stoi cs in if is_space c then rest else signed (c ∷ cs)

-- What `stoi` reads of the digits of a number.
digits-value_of :
    (cs : Bytes) (acc : ℕ) → AreDigits cs → digits cs true acc ≡ some (value_of acc cs)
unfolding digits value_of
digits-value_of [] acc d = refl
digits-value_of (c ∷ cs) acc (low, high, d) =
    let digit : is_digit c ≡ true = ground arith in
    rw digit (digits-value_of cs (acc * 10 + (c - 48)) d)

signed_digits :
    (cs : Bytes)
    → AreDigits cs
    → 0 < length cs
    → value_of 0 cs < 2 ^ 31
    → signed cs ≡ some (plus (value_of 0 cs))
unfolding signed digits value_of
signed_digits [] d some_digit small = absurd (omega (arith, some_digit))
signed_digits (c ∷ cs) (low, high, d) some_digit small =
    let digit : is_digit c ≡ true = ground arith in
    let no_minus : (c == 45) ≡ false = ground arith in
    let no_plus : (c == 43) ≡ false = ground arith in
    let fits : ltb (value_of 0 (c ∷ cs)) (2 ^ 31) ≡ true = ground arith in
    rw (no_minus, no_plus, digit, digits-value_of cs (0 * 10 + (c - 48)) d, fits) refl

stoi_digits :
    (cs : Bytes)
    → AreDigits cs
    → 0 < length cs
    → value_of 0 cs < 2 ^ 31
    → stoi cs ≡ some (plus (value_of 0 cs))
unfolding stoi
stoi_digits [] d some_digit small = absurd (omega (arith, some_digit))
stoi_digits (c ∷ cs) (low, high, d) some_digit small =
    let no_space : is_space c ≡ false = ground arith in
    rw no_space (signed_digits (c ∷ cs) (low, high, d) some_digit small)

-- `std::stoi` reads the decimal digits of a number below 2^31 back.
pub stoi-decimal : (n : ℕ) → n < 2 ^ 31 → stoi (decimal n) ≡ some (plus n)
stoi-decimal n small =
    let value = value_of-decimal n in
    let read = stoi_digits (decimal n) (decimal-AreDigits n) (decimal_some n) (rw value small) in
    rw value at read
