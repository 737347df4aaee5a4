-- ===== src/Codec/LittleEndian.antt =====
-- The loops over `i` that write and read a number byte by byte, the lowest first:
-- `push_back((v >> (i * 8)) & 0xFF)` and `v |= uint64_t(b) << (i * 8)`.
use raft_bitcask.Prelude.{
  ℕ, zero, suc, ◌+◌, ◌*◌, ◌/◌, ◌%◌, ◌^◌, ◌≤◌, ◌<◌, ◌≡◌, refl, sym, ap, ◌∙◌, bit_and, bit_or, [],
  ◌∷◌, length, All, arith,
}
use raft_bitcask.Prelude.Bits.{bit_and_mask, bit_or-disjoint}
use raft_bitcask.Common.{Bytes, IsByte, IsU32, IsU64}
use native.Mathlib.Nat.{
  div-div-eq-div-mul, div-add-mod, mod-eq_of_lt, mul-add-mod_self_left, one-le-pow, mod-lt,
  pow-le-pow_right,
}
use native.Mathlib.Numerals.{towards_suc}

-- The rounds from `i` on.
unfoldable pub push_le : ℕ → ℕ → ℕ → Bytes
push_le zero i v = []
push_le (suc n) i v = bit_and (v / 2 ^ (i * 8)) 0xff ∷ push_le n (i + 1) v

unfoldable pub or_le : ℕ → ℕ → Bytes → ℕ
or_le i v [] = v
or_le i v (b ∷ rest) = or_le (i + 1) (bit_or v (b * 2 ^ (i * 8) % 2 ^ 64)) rest

shift_eight : (i : ℕ) → 2 ^ ((i + 1) * 8) ≡ 2 ^ (i * 8) * 256
shift_eight i =
    let e : (i + 1) * 8 ≡ i * 8 + 8 = omega arith in rw e (simp towards_suc (omega arith))

mod_split : (p v : ℕ) → 0 < p → v % (p * 256) ≡ v % p + v / p % 256 * p
mod_split p v h =
    let rest : ℕ = v % p + v / p % 256 * p in
    let whole : v ≡ p * 256 * (v / p / 256) + rest =
      omega (arith, div-add-mod v p, ap (λ (t : ℕ). p * t) (div-add-mod (v / p) 256)) in
    let small : rest < p * 256 = grind (arith, mod-lt v h, mod-lt (v / p) {m = 256}) in
    ap (λ (t : ℕ). t % (p * 256)) whole
    ∙ mul-add-mod_self_left (p * 256) (v / p / 256) rest
    ∙ mod-eq_of_lt small

byte_fits : (b p : ℕ) → b < 256 → p ≤ 2 ^ 56 → b * p < 2 ^ 64
byte_fits b p h k = grind arith

one_round :
    (i v : ℕ)
    → i < 8
    → bit_or (v % 2 ^ (i * 8)) (bit_and (v / 2 ^ (i * 8)) 0xff * 2 ^ (i * 8) % 2 ^ 64)
      ≡ v % 2 ^ ((i + 1) * 8)
one_round i v h =
    let positive : 0 < 2 ^ (i * 8) = one-le-pow (i * 8) 2 (omega arith) in
    let exponent : i * 8 ≤ 56 = omega arith in
    let bound : 2 ^ (i * 8) ≤ 2 ^ 56 = pow-le-pow_right (omega arith) exponent in
    ground (
      arith,
      bit_and_mask 8 (v / 2 ^ (i * 8)),
      byte_fits (v / 2 ^ (i * 8) % 256) (2 ^ (i * 8)) (omega arith) bound,
      bit_or-disjoint (i * 8) (v % 2 ^ (i * 8)) (v / 2 ^ (i * 8) % 256) (mod-lt v positive),
      mod_split (2 ^ (i * 8)) v positive,
      shift_eight i,
    )

read_back :
    (n i v : ℕ) → i + n ≤ 8 → or_le i (v % 2 ^ (i * 8)) (push_le n i v) ≡ v % 2 ^ ((i + n) * 8)
unfolding or_le push_le
read_back zero i v h = ap (λ (t : ℕ). v % 2 ^ (t * 8)) (omega arith)
read_back (suc n) i v h =
    let last : (i + 1 + n) ≡ i + suc n = omega arith in
    let back : or_le (i + 1) (v % 2 ^ ((i + 1) * 8)) (push_le n (i + 1) v)
        ≡ v % 2 ^ ((i + 1 + n) * 8) =
      read_back n (i + 1) v (omega arith) in
    rw (or_le, one_round i v (omega arith)) (rw last at back)

-- Eight rounds read back the 64-bit number that eight rounds wrote.
pub or_le-push_le : (v : ℕ) → IsU64 v → or_le 0 0 (push_le 8 0 v) ≡ v
or_le-push_le v h =
    let start : v % 2 ^ (0 * 8) ≡ 0 = omega arith in
    (rw start at (read_back 8 0 v (omega arith))) ∙ mod-eq_of_lt h

-- Four rounds read back the 32-bit number that four rounds wrote.
pub or_le-push_le_four : (v : ℕ) → IsU32 v → or_le 0 0 (push_le 4 0 v) ≡ v
or_le-push_le_four v h =
    let start : v % 2 ^ (0 * 8) ≡ 0 = omega arith in
    (rw start at (read_back 4 0 v (omega arith))) ∙ mod-eq_of_lt h

pub push_le-injective : (v w : ℕ) → IsU64 v → IsU64 w → push_le 8 0 v ≡ push_le 8 0 w → v ≡ w
push_le-injective v w hv hw e = sym (or_le-push_le v hv) ∙ ap (or_le 0 0) e ∙ or_le-push_le w hw

pub length-push_le : (n i v : ℕ) → length (push_le n i v) ≡ n
unfolding push_le
length-push_le zero i v = refl
length-push_le (suc n) i v = ap suc (length-push_le n (i + 1) v)

pub push_le-IsByte : (n i v : ℕ) → All IsByte (push_le n i v)
unfolding push_le
push_le-IsByte zero i v = tt
push_le-IsByte (suc n) i v =
    (rw (bit_and_mask 8 (v / 2 ^ (i * 8))) (mod-lt _ (omega arith)), push_le-IsByte n (i + 1) v)

-- The number of which the bytes are the digits, the lowest first.
unfoldable pub number_of : Bytes → ℕ
number_of [] = 0
number_of (b ∷ rest) = b + 256 * number_of rest

pub number_of-lt : (bs : Bytes) → All IsByte bs → number_of bs < 2 ^ (length bs * 8)
unfolding number_of
number_of-lt [] h = omega arith
number_of-lt (b ∷ rest) (h, hs) =
    let e : suc (length rest) * 8 ≡ (length rest + 1) * 8 = omega arith in
    rw (e, shift_eight (length rest)) (omega (arith, h, number_of-lt rest hs))

digits_from :
    (bs : Bytes) (i v : ℕ)
    → All IsByte bs
    → v / 2 ^ (i * 8) ≡ number_of bs
    → push_le (length bs) i v ≡ bs
unfolding push_le number_of
digits_from [] i v h e = refl
digits_from (b ∷ rest) i v (h, hs) e =
    let digit : bit_and (v / 2 ^ (i * 8)) 0xff ≡ b =
      bit_and_mask 8 (v / 2 ^ (i * 8)) ∙ omega (arith, e, h) in
    let next : v / 2 ^ ((i + 1) * 8) ≡ number_of rest =
      ap (λ (n : ℕ). v / n) (shift_eight i)
      ∙ sym (div-div-eq-div-mul v (2 ^ (i * 8)) 256)
      ∙ omega (arith, e, h) in
    rw (digit, digits_from rest (i + 1) v hs next) refl

-- The bytes of a number are its digits.
pub push_le-number_of : (bs : Bytes) → All IsByte bs → push_le (length bs) 0 (number_of bs) ≡ bs
push_le-number_of bs h = digits_from bs 0 (number_of bs) h (omega arith)
