-- ===== src/SizePack/ZigZag/Laws.antt =====
-- What zigzag.h promises: the map is a bijection of the width, and orders numbers by magnitude.
use native.Mathlib.Decide.{dec_lt}
use native.Mathlib.Nat.{mod-eq-sub-mod, pow-suc, one-le-pow, div-eq_of_lt, mod-eq_of_lt}
use dep_srpc.Base.{ℕ, suc, ◌+◌, ◌-◌, ◌*◌, ◌/◌, ◌%◌, ◌^◌, ◌≤◌, ◌<◌, ◌≡◌, ◌∙◌, arith}
use dep_srpc.Base.{bit_and, bit_or, ltb, ◌==◌, if◌then◌else◌, true, false}
use dep_srpc.Base.Bits.{bit_and-one, bit_and-pow, bit_or-digit, bit_or-zero}
use dep_srpc.SizePack.ZigZag.{to_unsigned, to_signed}

-- The signed number that a pattern stands for: `negsuc n` is -(n + 1).
pub data Signed : Type 0 where
  pos : ℕ → Signed
  negsuc : ℕ → Signed

abbrev pub signed_value : ℕ → ℕ → Signed
signed_value top p = if ltb p (2 ^ top) then pos p else negsuc (2 ^ suc top - 1 - p)

-- 0, -1, 1, -2, 2, ... in this order.
abbrev pub zigzag_order : Signed → ℕ
zigzag_order (pos n) = 2 * n
zigzag_order (negsuc n) = 2 * n + 1

top_clear : (top p : ℕ) → p < 2 ^ top → (bit_and p (2 ^ top) == 0) ≡ true
top_clear top p h = ground (arith, bit_and-pow top p, div-eq_of_lt h)

top_quotient : (q p : ℕ) → 1 ≤ q → q ≤ p → p < 2 * q → p / q ≡ 1
top_quotient q p one lo hi = grind arith

top_set : (top p : ℕ) → 2 ^ top ≤ p → p < 2 ^ suc top → (bit_and p (2 ^ top) == 0) ≡ false
top_set top p lo hi =
    ground (arith, bit_and-pow top p, one-le-pow top 2, pow-suc 2 top, top_quotient (2 ^ top) p)

set_low_bit : (x : ℕ) → x % 2 ≡ 1 → bit_or x 1 ≡ x
set_low_bit x h = omega (arith, bit_or-digit x 1, bit_or-zero (x / 2))

shift_high : (q p : ℕ) → q ≤ p → p < 2 * q → p * 2 % (2 * q) ≡ 2 * p - 2 * q
shift_high q p lo hi =
    mod-eq-sub-mod {n = p * 2} {m = 2 * q} (omega arith) ∙ mod-eq_of_lt (omega arith) ∙ omega arith

to_unsigned_low : (top p : ℕ) → p < 2 ^ top → to_unsigned top p ≡ 2 * p
unfolding to_unsigned
to_unsigned_low top p h =
    rw (top_clear top p h) (mod-eq_of_lt (omega (arith, pow-suc 2 top)) ∙ omega arith)

to_unsigned_high :
    (top p : ℕ) → 2 ^ top ≤ p → p < 2 ^ suc top → to_unsigned top p ≡ 2 * (2 ^ suc top - 1 - p) + 1
unfolding to_unsigned
to_unsigned_high top p lo hi =
    let double : 2 ^ suc top ≡ 2 * 2 ^ top = omega (arith, pow-suc 2 top) in
    let shifted : p * 2 % 2 ^ suc top ≡ 2 * p - 2 ^ suc top =
      rw double (shift_high (2 ^ top) p lo (omega arith)) in
    rw (top_set top p lo hi, shifted)
      (set_low_bit (2 ^ suc top - 1 - (2 * p - 2 ^ suc top)) (omega arith) ∙ omega arith)

-- The code of a number is its place in 0, -1, 1, -2, 2, ...
pub to_unsigned-zigzag_order :
    (top p : ℕ) → p < 2 ^ suc top → to_unsigned top p ≡ zigzag_order (signed_value top p)
to_unsigned-zigzag_order top p h = ground (arith, to_unsigned_low top p, to_unsigned_high top p)

to_signed_cases :
    (top u : ℕ) → to_signed top u ≡ (if u % 2 == 0 then u / 2 else 2 ^ suc top - 1 - u / 2)
unfolding to_signed
to_signed_cases top u = rw (bit_and-one u)

-- Decoding undoes encoding on every pattern of the width.
pub to_signed-to_unsigned : (top p : ℕ) → p < 2 ^ suc top → to_signed top (to_unsigned top p) ≡ p
to_signed-to_unsigned top p h = elim (dec_lt p (2 ^ top)) [
  | yes low ↦ rw (to_unsigned_low top p low, to_signed_cases) (ground arith)
  | no high ↦
      rw (to_unsigned_high top p (omega arith) h, to_signed_cases) (ground (arith, pow-suc 2 top))
]

-- Encoding undoes decoding on every pattern of the width.
pub to_unsigned-to_signed : (top u : ℕ) → u < 2 ^ suc top → to_unsigned top (to_signed top u) ≡ u
to_unsigned-to_signed top u h = ground (
  arith,
  to_signed_cases top u,
  pow-suc 2 top,
  to_unsigned_low top (to_signed top u),
  to_unsigned_high top (to_signed top u),
)
