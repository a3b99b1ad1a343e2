-- ===== src/Base/Xor.antt =====
-- Exclusive or on binary digits.
use Prim.Native.Nat.{
  ℕ, zero, suc, ◌+◌, ◌*◌, ◌/◌, ◌%◌, ◌^◌, ◌≤◌, ◌<◌, bit_xor, differ, bit_xor-bitwise,
}
use mathlib.Core.Path.{◌≡◌, refl, ap, sym, ◌∙◌}
use native.Mathlib.Omega.{arith}
use native.Mathlib.Nat.{pow-suc, mul_comm, div-div-eq-div-mul}
use dep_srpc.Base.Bits.{last_digit}

-- Digits below 2.
differ_zero : (a : ℕ) → differ a 0 ≡ a
differ_zero zero = refl
differ_zero (suc a) = refl

differ_small : (a b : ℕ) → a < 2 → b < 2 → differ a b < 2
differ_small zero b h k = k
differ_small (suc a) zero h k = h
differ_small (suc zero) (suc b) h k = omega arith
differ_small (suc (suc a)) (suc b) h k = absurd (omega arith)

differ_twice : (a b : ℕ) → a < 2 → b < 2 → differ (differ a b) b ≡ a
differ_twice zero zero h k = refl
differ_twice zero (suc zero) h k = refl
differ_twice zero (suc (suc b)) h k = absurd (omega arith)
differ_twice (suc a) zero h k = refl
differ_twice (suc zero) (suc zero) h k = refl
differ_twice (suc zero) (suc (suc b)) h k = absurd (omega arith)
differ_twice (suc (suc a)) (suc b) h k = absurd (omega arith)

differ_comm : (a b : ℕ) → differ a b ≡ differ b a
differ_comm zero zero = refl
differ_comm zero (suc b) = refl
differ_comm (suc a) zero = refl
differ_comm (suc a) (suc b) = differ_comm a b

pub zero-bit_xor : (b : ℕ) → bit_xor 0 b ≡ b
zero-bit_xor b = bit_xor-bitwise 0 b

pub bit_xor-digit : (a b : ℕ) → bit_xor a b ≡ bit_xor (a / 2) (b / 2) * 2 + differ (a % 2) (b % 2)
bit_xor-digit zero b = rw zero-bit_xor (omega (arith, zero-bit_xor (b / 2)))
bit_xor-digit (suc a) b = simp bit_xor-bitwise (last_digit (λ y. y) differ a b)

pub bit_xor-half : (a b : ℕ) → bit_xor a b / 2 ≡ bit_xor (a / 2) (b / 2)
bit_xor-half a b =
    omega (arith, bit_xor-digit a b, differ_small (a % 2) (b % 2) (omega arith) (omega arith))

bit_xor-last : (a b : ℕ) → bit_xor a b % 2 ≡ differ (a % 2) (b % 2)
bit_xor-last a b =
    omega (arith, bit_xor-digit a b, differ_small (a % 2) (b % 2) (omega arith) (omega arith))

quotient : (k a : ℕ) → a / 2 ^ suc k ≡ a / 2 / 2 ^ k
quotient k a =
    rw (div-div-eq-div-mul a 2 (2 ^ k)) (ap (λ t. a / t) (pow-suc 2 k ∙ mul_comm (2 ^ k) 2))

by_one : (a : ℕ) → a / 1 ≡ a
by_one a = omega arith

-- A shift to the right goes inside.
pub bit_xor-shifted : (k a b : ℕ) → bit_xor a b / 2 ^ k ≡ bit_xor (a / 2 ^ k) (b / 2 ^ k)
bit_xor-shifted zero a b =
    by_one (bit_xor a b)
    ∙ ap (λ t. bit_xor t b) (sym (by_one a))
    ∙ ap (λ t. bit_xor (a / 1) t) (sym (by_one b))
bit_xor-shifted (suc k) a b =
    quotient k (bit_xor a b)
    ∙ ap (λ t. t / 2 ^ k) (bit_xor-half a b)
    ∙ bit_xor-shifted k (a / 2) (b / 2)
    ∙ ap (λ t. bit_xor t (b / 2 / 2 ^ k)) (sym (quotient k a))
    ∙ ap (λ t. bit_xor (a / 2 ^ suc k) t) (sym (quotient k b))

bit_xor-zero_fuel : (n a : ℕ) → a ≤ n → bit_xor a 0 ≡ a
bit_xor-zero_fuel n zero h = zero-bit_xor 0
bit_xor-zero_fuel zero (suc a) h = absurd (omega arith)
bit_xor-zero_fuel (suc n) (suc a) h = omega (
  arith,
  bit_xor-digit (suc a) 0,
  differ_zero (suc a % 2),
  bit_xor-zero_fuel n (suc a / 2) (omega arith),
)

pub bit_xor-zero : (a : ℕ) → bit_xor a 0 ≡ a
bit_xor-zero a = bit_xor-zero_fuel a a (omega arith)

twice_digit :
    (a b : ℕ) → bit_xor (bit_xor (a / 2) (b / 2)) (b / 2) ≡ a / 2 → bit_xor (bit_xor a b) b ≡ a
twice_digit a b halves = omega (
  arith,
  bit_xor-digit (bit_xor a b) b,
  ap (λ (t : ℕ). bit_xor t (b / 2)) (bit_xor-half a b),
  halves,
  ap (λ (t : ℕ). differ t (b % 2)) (bit_xor-last a b),
  differ_twice (a % 2) (b % 2) (omega arith) (omega arith),
)

twice_fuel : (n a b : ℕ) → a + b ≤ n → bit_xor (bit_xor a b) b ≡ a
twice_fuel n zero zero h = ap (λ t. bit_xor t 0) (zero-bit_xor 0) ∙ zero-bit_xor 0
twice_fuel zero zero (suc b) h = absurd (omega arith)
twice_fuel zero (suc a) b h = absurd (omega arith)
twice_fuel (suc n) zero (suc b) h = twice_digit 0 (suc b) (twice_fuel n 0 (suc b / 2) (omega arith))
twice_fuel (suc n) (suc a) b h =
    twice_digit (suc a) b (twice_fuel n (suc a / 2) (b / 2) (omega arith))

pub bit_xor-twice : (a b : ℕ) → bit_xor (bit_xor a b) b ≡ a
bit_xor-twice a b = twice_fuel (a + b) a b (omega arith)

pub bit_xor-cancel : (a b c : ℕ) → bit_xor a c ≡ bit_xor b c → a ≡ b
bit_xor-cancel a b c e = sym (bit_xor-twice a c) ∙ ap (λ t. bit_xor t c) e ∙ bit_xor-twice b c

comm_fuel : (n a b : ℕ) → a + b ≤ n → bit_xor a b ≡ bit_xor b a
comm_fuel n zero b h = zero-bit_xor b ∙ sym (bit_xor-zero b)
comm_fuel n (suc a) zero h = bit_xor-zero (suc a) ∙ sym (zero-bit_xor (suc a))
comm_fuel zero (suc a) (suc b) h = absurd (omega arith)
comm_fuel (suc n) (suc a) (suc b) h = omega (
  arith,
  bit_xor-digit (suc a) (suc b),
  bit_xor-digit (suc b) (suc a),
  comm_fuel n (suc a / 2) (suc b / 2) (omega arith),
  differ_comm (suc a % 2) (suc b % 2),
)

pub bit_xor_comm : (a b : ℕ) → bit_xor a b ≡ bit_xor b a
bit_xor_comm a b = comm_fuel (a + b) a b (omega arith)
