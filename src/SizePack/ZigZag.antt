-- ===== src/SizePack/ZigZag.antt =====
-- include/srpc/common/sizepack/zigzag.h and types.h: signed numbers of small magnitude as small
-- unsigned ones. `top` is `types<>::top_bit_shift`, one less than the width; a number of either
-- type is its bit pattern, below `2 ^ suc top`. The 8 and 16 bit types compute in `int` and are cut
-- to the width when they are assigned; the results are the same.
pub mod Laws
use dep_srpc.Base.{ℕ, suc, ◌-◌, ◌*◌, ◌/◌, ◌%◌, ◌^◌, bit_and, bit_or, ◌==◌, if◌then◌else◌}

-- `types<sizeof(value_type)>::top_bit`.
unfoldable pub top_bit : ℕ → ℕ
top_bit top = 2 ^ top

-- `~p` and `p << 1` at the width.
abbrev pub complement : ℕ → ℕ → ℕ
complement top p = 2 ^ suc top - 1 - p

abbrev pub shift_left : ℕ → ℕ → ℕ
shift_left top p = p * 2 % 2 ^ suc top

unfoldable pub to_unsigned : ℕ → ℕ → ℕ
unfolding top_bit
to_unsigned top p =
    if bit_and p (top_bit top) == 0
    then shift_left top p
    else bit_or (complement top (shift_left top p)) 1

unfoldable pub to_signed : ℕ → ℕ → ℕ
to_signed top val = if bit_and val 1 == 0 then val / 2 else complement top (val / 2)
