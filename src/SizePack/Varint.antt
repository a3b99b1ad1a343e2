-- ===== src/SizePack/Varint.antt =====
-- include/srpc/common/sizepack/varint.h: seven bits a byte, lowest group first, the top bit set on
-- every byte but the last. `bits` is the width of `size_type`.
mod Shape
pub mod Laws
use mathlib.Core.Logic.{dite}
use mathlib.Core.WellFounded.{Acc}
use native.Mathlib.Decide.{dec_lt}
use dep_srpc.Base.{ℕ, ◌+◌, ◌*◌, ◌/◌, ◌%◌, ◌^◌, ◌<◌, bit_and, bit_or, arith}
use dep_srpc.Base.{List, [], ◌∷◌, ◌++◌, ltb, ◌==◌, if◌then◌else◌}
use dep_srpc.Base.Order.{lt_wf}
use dep_srpc.SizePack.Policy.{Policy}

-- `begin` walks the list; `last` is the byte read last, 0x80 before the first.
pub size_length_loop : List ℕ → ℕ → ℕ → ℕ
size_length_loop [] length last = if bit_and last 0x80 == 0 then length else 0
size_length_loop (b ∷ bs) length last =
    if bit_and last 0x80 == 0 then length else size_length_loop bs (length + 1) b

unfoldable pub size_length : List ℕ → ℕ
size_length bytes = size_length_loop bytes 0 0x80

-- `++res, input >>= 7` while `input` is not 0.
pub packed_length_loop : ℕ → (input : ℕ) → Acc ◌<◌ input → ℕ
packed_length_loop res input (Acc.intro _ smaller) =
    dite (dec_lt 0 input)
      (λ h. packed_length_loop (res + 1) (input / 128) (smaller (input / 128) (omega arith)))
      (λ _. res)

unfoldable pub packed_length : ℕ → ℕ
packed_length input = if ltb 0 input then packed_length_loop 0 input (lt_wf.apply input) else 0

-- `for( ; size > 0x7F; size >>= 7 ) push_back((size & 0x7F) | 0x80)`, then the last group.
pub append_loop : List ℕ → (size : ℕ) → Acc ◌<◌ size → List ℕ
append_loop res size (Acc.intro _ smaller) =
    dite (dec_lt 0x7f size)
      (λ h.
        append_loop (res ++ bit_or (bit_and size 0x7f) 0x80 ∷ []) (size / 128)
          (smaller (size / 128) (omega arith)))
      (λ _. res ++ size ∷ [])

-- `append( size, res )`.
unfoldable pub append : ℕ → List ℕ → List ℕ
append size res = append_loop res size (lt_wf.apply size)

-- `pack( size )`, and `pack( size, res )`, which packs into a new string and swaps it in.
unfoldable pub pack : ℕ → List ℕ
pack size = append size []

-- `res |= (size_type)(last & 0x7F) << shift`. A shift by the width or more is undefined in the
-- source; here it gives 0.
abbrev pub add_group : ℕ → ℕ → ℕ → ℕ → ℕ
add_group bits res b shift = bit_or res (bit_and b 0x7f * 2 ^ shift % 2 ^ bits)

pub unpack_loop : ℕ → List ℕ → ℕ → ℕ → ℕ → ℕ
unpack_loop bits [] res shift last = res
unpack_loop bits (b ∷ bs) res shift last =
    if bit_and last 0x80 == 0
    then res
    else unpack_loop bits bs (add_group bits res b shift) (shift + 7) b

unfoldable pub unpack : ℕ → List ℕ → ℕ
unpack bits bytes = unpack_loop bits bytes 0 0 0x80

-- `varint<size_type>` as a policy: `max_length` is `sizeof(size_type) * 8 / 7 + 1`.
abbrev pub varint : ℕ → Policy
varint bits = record {
  min_length = 1;
  max_length = bits / 7 + 1;
  limit = 2 ^ bits;
  size_length = size_length;
  packed_length = packed_length;
  pack = pack;
  unpack = unpack bits;
}
