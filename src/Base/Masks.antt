-- ===== src/Base/Masks.antt =====
-- Masks: setting and taking away the bits of a number.
use Prim.Native.Nat.{ℕ, zero, suc, ◌-◌, ◌/◌, ◌%◌, ◌^◌, ◌<◌, min, max}
use Prim.Native.Nat.{bit_and, bit_or}
use mathlib.Core.Path.{◌≡◌, ap, sym, ◌∙◌}
use native.Mathlib.Omega.{arith}
use native.Mathlib.Nat.{pow-suc}
use dep_srpc.Base.Bits.{bit_and-digit, bit_or-digit, bit_and-zero}

bit_and-half : (a b : ℕ) → bit_and a b / 2 ≡ bit_and (a / 2) (b / 2)
bit_and-half a b = omega (arith, bit_and-digit a b)

bit_and-low : (a b : ℕ) → bit_and a b % 2 ≡ min (a % 2) (b % 2)
bit_and-low a b = omega (arith, bit_and-digit a b)

bit_or-half : (a b : ℕ) → bit_or a b / 2 ≡ bit_or (a / 2) (b / 2)
bit_or-half a b = omega (arith, bit_or-digit a b)

bit_or-low : (a b : ℕ) → bit_or a b % 2 ≡ max (a % 2) (b % 2)
bit_or-low a b = omega (arith, bit_or-digit a b)

-- Numbers below a power are numbers of that many digits.
half_small : (w n : ℕ) → n < 2 ^ suc w → n / 2 < 2 ^ w
half_small w n h = omega (arith, pow-suc 2 w)

same_digits : (a b : ℕ) → a / 2 ≡ b / 2 → a % 2 ≡ b % 2 → a ≡ b
same_digits a b half low = omega (arith, half, low)

bit_or-set_width : (w a b : ℕ) → b < 2 ^ w → bit_and (bit_or a b) b ≡ b
bit_or-set_width zero a b h =
    let none : b ≡ 0 = omega (arith, h) in rw none (bit_and-zero (bit_or a 0))
bit_or-set_width (suc w) a b h =
    same_digits (bit_and (bit_or a b) b) b
      (bit_and-half (bit_or a b) b
        ∙ ap (λ t. bit_and t (b / 2)) (bit_or-half a b)
        ∙ bit_or-set_width w (a / 2) (b / 2) (half_small w b h))
      (omega (arith, bit_and-low (bit_or a b) b, bit_or-low a b))

-- Where no bit of `b` is in `g`, setting `b` changes nothing of `g`.
bit_or-apart_width :
    (w a b g : ℕ) → g < 2 ^ w → bit_and b g ≡ 0 → bit_and (bit_or a b) g ≡ bit_and a g
bit_or-apart_width zero a b g h apart =
    let none : g ≡ 0 = omega (arith, h) in
    rw none (bit_and-zero (bit_or a b) ∙ sym (bit_and-zero a))
bit_or-apart_width (suc w) a b g h apart =
    let half : bit_and (b / 2) (g / 2) ≡ 0 = omega (arith, bit_and-half b g, apart) in
    same_digits (bit_and (bit_or a b) g) (bit_and a g)
      (bit_and-half (bit_or a b) g
        ∙ ap (λ t. bit_and t (g / 2)) (bit_or-half a b)
        ∙ bit_or-apart_width w (a / 2) (b / 2) (g / 2) (half_small w g h) half
        ∙ sym (bit_and-half a g))
      (omega (
        arith,
        bit_and-low (bit_or a b) g,
        bit_or-low a b,
        bit_and-low b g,
        bit_and-low a g,
        apart,
      ))

-- The number of `w` digits with every digit turned.
unfoldable pub complement : ℕ → ℕ → ℕ
complement w n = (2 ^ w - 1) - n

complement-half : (w n : ℕ) → n < 2 ^ suc w → complement (suc w) n / 2 ≡ complement w (n / 2)
unfolding complement
complement-half w n h = omega (arith, pow-suc 2 w, h)

complement-low : (w n : ℕ) → n < 2 ^ suc w → complement (suc w) n % 2 ≡ 1 - n % 2
unfolding complement
complement-low w n h = omega (arith, pow-suc 2 w, h)

pub bit_and-complement : (w a b : ℕ) → b < 2 ^ w → bit_and (bit_and a (complement w b)) b ≡ 0
bit_and-complement zero a b h =
    let none : b ≡ 0 = omega (arith, h) in rw none (bit_and-zero (bit_and a (complement 0 0)))
bit_and-complement (suc w) a b h =
    let c : ℕ = complement (suc w) b in
    let half : bit_and (bit_and a c) b / 2 ≡ 0 =
      bit_and-half (bit_and a c) b
      ∙ ap (λ t. bit_and t (b / 2)) (bit_and-half a c)
      ∙ ap (λ t. bit_and (bit_and (a / 2) t) (b / 2)) (complement-half w b h)
      ∙ bit_and-complement w (a / 2) (b / 2) (half_small w b h) in
    same_digits (bit_and (bit_and a c) b) 0 half
      (omega (arith, bit_and-low (bit_and a c) b, bit_and-low a c, complement-low w b h))

pub bit_and-complement_apart :
    (w a b g : ℕ)
    → b < 2 ^ w
    → g < 2 ^ w
    → bit_and b g ≡ 0
    → bit_and (bit_and a (complement w b)) g ≡ bit_and a g
bit_and-complement_apart zero a b g h k apart =
    let none : g ≡ 0 = omega (arith, k) in
    rw none (bit_and-zero (bit_and a (complement 0 b)) ∙ sym (bit_and-zero a))
bit_and-complement_apart (suc w) a b g h k apart =
    let c : ℕ = complement (suc w) b in
    let below : bit_and (b / 2) (g / 2) ≡ 0 = omega (arith, bit_and-half b g, apart) in
    same_digits (bit_and (bit_and a c) g) (bit_and a g)
      (bit_and-half (bit_and a c) g
        ∙ ap (λ t. bit_and t (g / 2)) (bit_and-half a c)
        ∙ ap (λ t. bit_and (bit_and (a / 2) t) (g / 2)) (complement-half w b h)
        ∙ bit_and-complement_apart w (a / 2) (b / 2) (g / 2) (half_small w b h) (half_small w g k)
            below
        ∙ sym (bit_and-half a g))
      (omega (
        arith,
        bit_and-low (bit_and a c) g,
        bit_and-low a c,
        complement-low w b h,
        bit_and-low b g,
        bit_and-low a g,
        apart,
      ))

pub bit_or-set : (a b : ℕ) → b < 2 ^ 32 → bit_and (bit_or a b) b ≡ b
bit_or-set a b h = bit_or-set_width 32 a b h

pub bit_or-apart : (a b g : ℕ) → g < 2 ^ 32 → bit_and b g ≡ 0 → bit_and (bit_or a b) g ≡ bit_and a g
bit_or-apart a b g h apart = bit_or-apart_width 32 a b g h apart
