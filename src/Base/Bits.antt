-- ===== src/Base/Bits.antt =====
-- Masks and shifts as arithmetic. The native bit operations compute at numerals; the laws at
-- variables are proved here from the recursion on binary digits that they stand for.
use Prim.Native.Nat.{ℕ, zero, suc, ◌+◌, ◌*◌, ◌/◌, ◌%◌, ◌^◌, ◌≤◌, ◌<◌, min, max}
use Prim.Native.Nat.{bit_and, bit_or, digits, bitwise}
use Prim.Native.Nat.{bit_and-bitwise, bit_or-bitwise}
use mathlib.Core.Path.{◌≡◌, refl, ap, sym, ◌∙◌}
use native.Mathlib.Omega.{arith}
use native.Mathlib.Nat.{pow-suc, le_refl, mul_comm, div-div-eq-div-mul}

module _ (z : ℕ → ℕ) (f : ℕ → ℕ → ℕ) where
  no_digits : (n b : ℕ) → digits z f n zero b ≡ z b
  no_digits zero b = refl
  no_digits (suc n) b = refl

  -- Enough fuel is as good as any: the digits of `a` run out first.
  enough_fuel : (n a b : ℕ) → a ≤ n → (m : ℕ) → a ≤ m → digits z f n a b ≡ digits z f m a b
  enough_fuel n zero b h m k = no_digits n b ∙ sym (no_digits m b)
  enough_fuel zero (suc a) b h m k = absurd (omega arith)
  enough_fuel (suc n) (suc a) b h zero k = absurd (omega arith)
  enough_fuel (suc n) (suc a) b h (suc m) k =
      ap (λ t. t * 2 + f (suc a % 2) (b % 2))
        (enough_fuel n (suc a / 2) (b / 2) (omega arith) m (omega arith))

pub last_digit :
    (z : ℕ → ℕ) (f : ℕ → ℕ → ℕ) (a b : ℕ)
    → bitwise z f (suc a) b ≡ bitwise z f (suc a / 2) (b / 2) * 2 + f (suc a % 2) (b % 2)
last_digit z f a b =
    ap (λ t. t * 2 + f (suc a % 2) (b % 2))
      (enough_fuel z f a (suc a / 2) (b / 2) (omega arith) (suc a / 2) (le_refl _))

pub bit_and-digit : (a b : ℕ) → bit_and a b ≡ bit_and (a / 2) (b / 2) * 2 + min (a % 2) (b % 2)
bit_and-digit zero b = simp bit_and-bitwise (omega arith)
bit_and-digit (suc a) b = simp bit_and-bitwise (last_digit (λ _. 0) min a b)

pub bit_or-digit : (a b : ℕ) → bit_or a b ≡ bit_or (a / 2) (b / 2) * 2 + max (a % 2) (b % 2)
bit_or-digit zero b = simp bit_or-bitwise (omega arith)
bit_or-digit (suc a) b = simp bit_or-bitwise (last_digit (λ y. y) max a b)

pub zero-bit_or : (b : ℕ) → bit_or 0 b ≡ b
zero-bit_or b = bit_or-bitwise 0 b

bit_or-zero_fuel : (n a : ℕ) → a ≤ n → bit_or a 0 ≡ a
bit_or-zero_fuel n zero h = zero-bit_or 0
bit_or-zero_fuel zero (suc a) h = absurd (omega arith)
bit_or-zero_fuel (suc n) (suc a) h =
    omega (arith, bit_or-digit (suc a) 0, bit_or-zero_fuel n (suc a / 2) (omega arith))

pub bit_or-zero : (a : ℕ) → bit_or a 0 ≡ a
bit_or-zero a = bit_or-zero_fuel a a (omega arith)

-- The digits of `a` are used up within `steps` halvings.
no_common_digit : (steps a : ℕ) → a ≤ steps → 0 ≡ bit_and a 0
no_common_digit steps zero le = refl
no_common_digit zero (suc a) le = absurd (omega arith)
no_common_digit (suc steps) (suc a) le =
    let rest : 0 ≡ bit_and (suc a / 2) 0 = no_common_digit steps (suc a / 2) (omega arith) in
    omega (arith, rest, bit_and-digit (suc a) 0)

pub bit_and-zero : (a : ℕ) → bit_and a 0 ≡ 0
bit_and-zero a = sym (no_common_digit a a (omega arith))

double : (g k : ℕ) → g * 2 ^ suc k ≡ 2 * (g * 2 ^ k)
double g k = omega (arith, ap (λ (t : ℕ). g * t) (pow-suc 2 k))

-- `low | (g << k)` is a sum where `low` has `k` digits at most.
pub bit_or-shifted : (k low g : ℕ) → low < 2 ^ k → bit_or low (g * 2 ^ k) ≡ low + g * 2 ^ k
bit_or-shifted zero low g h =
    let e : low ≡ 0 = omega arith in rw e (omega (arith, zero-bit_or (g * 2 ^ 0)))
bit_or-shifted (suc k) low g h = omega (
  arith,
  bit_or-digit low (g * 2 ^ suc k),
  double g k,
  pow-suc 2 k,
  ap (bit_or (low / 2)) (half_double g k),
  bit_or-shifted k (low / 2) g (omega (arith, pow-suc 2 k)),
)
  where
    half_double : (g k : ℕ) → g * 2 ^ suc k / 2 ≡ g * 2 ^ k
    half_double g k = omega (arith, double g k)

half_double : (g k : ℕ) → g * 2 ^ suc k / 2 ≡ g * 2 ^ k
half_double g k = omega (arith, double g k)

-- The same with the fields the other way round: `(g << k) | low`.
pub shifted-bit_or : (k low g : ℕ) → low < 2 ^ k → bit_or (g * 2 ^ k) low ≡ g * 2 ^ k + low
shifted-bit_or zero low g h =
    let e : low ≡ 0 = omega arith in rw e (omega (arith, bit_or-zero (g * 2 ^ 0)))
shifted-bit_or (suc k) low g h = omega (
  arith,
  bit_or-digit (g * 2 ^ suc k) low,
  double g k,
  pow-suc 2 k,
  ap (λ t. bit_or t (low / 2)) (half_double g k),
  shifted-bit_or k (low / 2) g (omega (arith, pow-suc 2 k)),
)

-- Masks of low digits are remainders.
pub bit_and-one : (a : ℕ) → bit_and a 1 ≡ a % 2
bit_and-one a = omega (arith, bit_and-digit a 1, bit_and-zero (a / 2))

bit_and-fifteen : (a : ℕ) → bit_and a 15 ≡ a % 16
bit_and-fifteen a = omega (
  arith,
  bit_and-digit a 15,
  bit_and-digit (a / 2) 7,
  bit_and-digit (a / 2 / 2) 3,
  bit_and-one (a / 2 / 2 / 2),
)

pub bit_and-low_seven : (a : ℕ) → bit_and a 0x7f ≡ a % 128
bit_and-low_seven a = omega (
  arith,
  bit_and-digit a 127,
  bit_and-digit (a / 2) 63,
  bit_and-digit (a / 2 / 2) 31,
  bit_and-fifteen (a / 2 / 2 / 2),
)

pub bit_and-low_byte : (a : ℕ) → bit_and a 0xff ≡ a % 256
bit_and-low_byte a = omega (arith, bit_and-digit a 255, bit_and-low_seven (a / 2))

-- A mask of one digit.
pub bit_and-pow : (k a : ℕ) → bit_and a (2 ^ k) ≡ a / 2 ^ k % 2 * 2 ^ k
bit_and-pow zero a = omega (arith, bit_and-one a)
bit_and-pow (suc k) a = rw (quotient k a) (
    omega (
      arith,
      bit_and-digit a (2 ^ suc k),
      ap (bit_and (a / 2)) (half_pow k),
      bit_and-pow k (a / 2),
      pow-suc 2 k,
      double (a / 2 / 2 ^ k % 2) k,
    ))
  where
    half_pow : (k : ℕ) → 2 ^ suc k / 2 ≡ 2 ^ k
    half_pow k = omega (arith, pow-suc 2 k)

    quotient : (k a : ℕ) → a / 2 ^ suc k ≡ a / 2 / 2 ^ k
    quotient k a =
        rw (div-div-eq-div-mul a 2 (2 ^ k)) (ap (λ t. a / t) (pow-suc 2 k ∙ mul_comm (2 ^ k) 2))

-- A byte's top bit, and a group of seven bits with that bit set.
pub bit_and-top : (b : ℕ) → b < 256 → bit_and b 0x80 ≡ b / 128 * 128
bit_and-top b h = omega (arith, bit_and-pow 7 b)

pub bit_or-top : (b : ℕ) → b < 128 → bit_or b 0x80 ≡ b + 128
bit_or-top b h = bit_or-shifted 7 b 1 h
