-- ===== src/Prelude/Bits.antt =====
-- The bit operations of the source as arithmetic, at every width: one equation for the lowest
-- binary digit of each operation, and the laws of masks, disjoint fields and exclusive or.
use Prim.Native.Nat.{
  ℕ, zero, suc, ◌+◌, ◌-◌, ◌*◌, ◌/◌, ◌%◌, ◌^◌, ◌≤◌, ◌<◌, min, max, bit_and, bit_or, bit_xor, digits,
  bitwise, differ, bit_and-bitwise, bit_or-bitwise, bit_xor-bitwise,
}
use mathlib.Core.Path.{◌≡◌, refl, ap}
use mathlib.Core.WellFounded
use native.Mathlib.Nat.{le_refl, pow-suc, one-le-pow}
use native.Mathlib.Omega.{arith}
use raft_bitcask.Prelude.Order.{lt_wf}

module _ (base : ℕ → ℕ) (op : ℕ → ℕ → ℕ) where
  -- Fuel beyond the first number changes nothing.
  digits_enough : (f g x y : ℕ) → x ≤ f → x ≤ g → digits base op f x y ≡ digits base op g x y
  digits_enough zero zero x y hf hg = refl
  digits_enough zero (suc g) zero y hf hg = refl
  digits_enough zero (suc g) (suc x) y hf hg = absurd (omega arith)
  digits_enough (suc f) zero zero y hf hg = refl
  digits_enough (suc f) zero (suc x) y hf hg = absurd (omega arith)
  digits_enough (suc f) (suc g) zero y hf hg = refl
  digits_enough (suc f) (suc g) (suc x) y hf hg =
      rw (digits_enough f g (suc x / 2) (y / 2) (omega arith) (omega arith))

  lowest_digit :
      (x y : ℕ)
      → bitwise base op (suc x) y ≡ bitwise base op (suc x / 2) (y / 2) * 2 + op (suc x % 2) (y % 2)
  lowest_digit x y =
      omega (arith, digits_enough x (suc x / 2) (suc x / 2) (y / 2) (omega arith) (le_refl _))

bit_xor_digit : (x y : ℕ) → bit_xor x y ≡ bit_xor (x / 2) (y / 2) * 2 + differ (x % 2) (y % 2)
bit_xor_digit zero y = simp bit_xor-bitwise (omega arith)
bit_xor_digit (suc x) y = simp bit_xor-bitwise (lowest_digit (λ y. y) differ x y)

bit_or_digit : (x y : ℕ) → bit_or x y ≡ bit_or (x / 2) (y / 2) * 2 + max (x % 2) (y % 2)
bit_or_digit zero y = simp bit_or-bitwise (omega arith)
bit_or_digit (suc x) y = simp bit_or-bitwise (lowest_digit (λ y. y) max x y)

bit_and_digit : (x y : ℕ) → bit_and x y ≡ bit_and (x / 2) (y / 2) * 2 + min (x % 2) (y % 2)
bit_and_digit zero y = simp bit_and-bitwise (omega arith)
bit_and_digit (suc x) y = simp bit_and-bitwise (lowest_digit (λ y. 0) min x y)

-- Each law goes from `a / 2` to `a`, hence the strong induction.
bit_or-zero : (a : ℕ) → bit_or a 0 ≡ a
bit_or-zero a = WellFounded.induction lt_wf {C = λ v. bit_or v 0 ≡ v} a halve
  where
    halve : (v : ℕ) → ((u : ℕ) → u < v → bit_or u 0 ≡ u) → bit_or v 0 ≡ v
    halve zero below = refl
    halve (suc v) below = omega (arith, bit_or_digit (suc v) 0, below (suc v / 2) (omega arith))

bit_and-zero : (a : ℕ) → bit_and a 0 ≡ 0
bit_and-zero a = WellFounded.induction lt_wf {C = λ v. bit_and v 0 ≡ 0} a halve
  where
    halve : (v : ℕ) → ((u : ℕ) → u < v → bit_and u 0 ≡ 0) → bit_and v 0 ≡ 0
    halve zero below = refl
    halve (suc v) below = omega (arith, bit_and_digit (suc v) 0, below (suc v / 2) (omega arith))

double_pow : (q k : ℕ) → q * 2 ^ suc k ≡ 2 * (q * 2 ^ k)
double_pow q k = omega (arith, ap (λ (t : ℕ). q * t) (pow-suc 2 k))

-- `r | (q << k)` is a sum when `r` fits `k` bits.
pub bit_or-disjoint : (k r q : ℕ) → r < 2 ^ k → bit_or r (q * 2 ^ k) ≡ r + q * 2 ^ k
bit_or-disjoint zero zero q h = simp bit_or-bitwise (omega arith)
bit_or-disjoint zero (suc r) q h = absurd (omega arith)
bit_or-disjoint (suc k) r q h = ground (
  arith,
  bit_or_digit r (q * 2 ^ suc k),
  double_pow q k,
  pow-suc 2 k,
  bit_or-disjoint k (r / 2) q (omega (arith, pow-suc 2 k)),
)

bit_and_low : (k q r : ℕ) → r < 2 ^ k → bit_and (q * 2 ^ k + r) (2 ^ k - 1) ≡ r
bit_and_low zero q r h = rw bit_and-zero (omega arith)
bit_and_low (suc k) q r h = ground (
  arith,
  bit_and_digit (q * 2 ^ suc k + r) (2 ^ suc k - 1),
  double_pow q k,
  pow-suc 2 k,
  one-le-pow k 2,
  bit_and_low k q (r / 2) (omega (arith, pow-suc 2 k)),
)

-- `x & (2^k - 1)` is the remainder.
pub bit_and_mask : (k a : ℕ) → bit_and a (2 ^ k - 1) ≡ a % 2 ^ k
bit_and_mask k a = ground (arith, one-le-pow k 2, bit_and_low k (a / 2 ^ k) (a % 2 ^ k))

bit_and_double : (a c : ℕ) → bit_and a (c * 2) ≡ bit_and (a / 2) c * 2
bit_and_double a c = ground (arith, bit_and_digit a (c * 2))

bit_and-one : (a : ℕ) → bit_and a 1 ≡ a % 2
bit_and-one a = omega (arith, bit_and_digit a 1, bit_and-zero (a / 2))

-- The top bit of a byte.
pub bit_and_top : (b : ℕ) → b < 256 → bit_and b 0x80 ≡ b / 128 * 128
bit_and_top b h = omega (
  arith,
  bit_and_double (b) 64,
  bit_and_double (b / 2) 32,
  bit_and_double (b / 2 / 2) 16,
  bit_and_double (b / 2 / 2 / 2) 8,
  bit_and_double (b / 2 / 2 / 2 / 2) 4,
  bit_and_double (b / 2 / 2 / 2 / 2 / 2) 2,
  bit_and_double (b / 2 / 2 / 2 / 2 / 2 / 2) 1,
  bit_and-one (b / 2 / 2 / 2 / 2 / 2 / 2 / 2),
)

bit_or_double : (a c : ℕ) → bit_or a (c * 2) ≡ bit_or (a / 2) c * 2 + a % 2
bit_or_double a c = ground (arith, bit_or_digit a (c * 2))

bit_or-one : (a : ℕ) → bit_or a 1 ≡ a / 2 * 2 + 1
bit_or-one a = omega (arith, bit_or_digit a 1, bit_or-zero (a / 2))

-- Setting the top bit of a byte, whether or not it is set.
pub bit_or_top : (b : ℕ) → b < 256 → bit_or b 0x80 ≡ b % 128 + 128
bit_or_top b h = omega (
  arith,
  bit_or_double (b) 64,
  bit_or_double (b / 2) 32,
  bit_or_double (b / 2 / 2) 16,
  bit_or_double (b / 2 / 2 / 2) 8,
  bit_or_double (b / 2 / 2 / 2 / 2) 4,
  bit_or_double (b / 2 / 2 / 2 / 2 / 2) 2,
  bit_or_double (b / 2 / 2 / 2 / 2 / 2 / 2) 1,
  bit_or-one (b / 2 / 2 / 2 / 2 / 2 / 2 / 2),
)

differ_cancel : (a b : ℕ) → a < 2 → b < 2 → (differ (differ a b) b ≡ a) × (differ a b < 2)
differ_cancel zero zero p q = (refl, omega arith)
differ_cancel zero (suc zero) p q = (refl, omega arith)
differ_cancel (suc zero) zero p q = (refl, omega arith)
differ_cancel (suc zero) (suc zero) p q = (refl, omega arith)
differ_cancel (suc (suc a)) b p q = absurd (omega arith)
differ_cancel a (suc (suc b)) p q = absurd (omega arith)

-- Exclusive or with the same mask twice gives the number back.
pub bit_xor_cancel : (m a b : ℕ) → a < 2 ^ m → b < 2 ^ m → bit_xor (bit_xor a b) b ≡ a
bit_xor_cancel zero zero zero p q = refl
bit_xor_cancel zero (suc a) b p q = absurd (omega arith)
bit_xor_cancel zero a (suc b) p q = absurd (omega arith)
bit_xor_cancel (suc m) a b p q =
    let (back, low) = differ_cancel (a % 2) (b % 2) (omega arith) (omega arith) in
    let high : bit_xor a b / 2 ≡ bit_xor (a / 2) (b / 2) = omega (arith, bit_xor_digit a b) in
    let digit : bit_xor a b % 2 ≡ differ (a % 2) (b % 2) = omega (arith, bit_xor_digit a b) in
    ground (
      arith,
      bit_xor_digit (bit_xor a b) b,
      pow-suc 2 m,
      bit_xor_cancel m (a / 2) (b / 2) (omega (arith, pow-suc 2 m)) (omega (arith, pow-suc 2 m)),
    )

pub bit_xor_bound : (m a b : ℕ) → a < 2 ^ m → b < 2 ^ m → bit_xor a b < 2 ^ m
bit_xor_bound zero zero zero p q = omega arith
bit_xor_bound zero (suc a) b p q = absurd (omega arith)
bit_xor_bound zero a (suc b) p q = absurd (omega arith)
bit_xor_bound (suc m) a b p q = omega (
  arith,
  pow-suc 2 m,
  bit_xor_digit a b,
  (differ_cancel (a % 2) (b % 2) (omega arith) (omega arith)).1,
  bit_xor_bound m (a / 2) (b / 2) (omega (arith, pow-suc 2 m)) (omega (arith, pow-suc 2 m)),
)
