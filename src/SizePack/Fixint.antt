-- ===== src/SizePack/Fixint.antt =====
-- include/srpc/common/sizepack/fixint.h: a big-endian number of `sizeof(size_type)` bytes. `width`
-- is that number of bytes.
pub mod Laws
use dep_srpc.Base.{ℕ, zero, suc, ◌*◌, ◌/◌, ◌%◌, ◌^◌, bit_and, bit_or}
use dep_srpc.Base.{List, [], ◌∷◌, ◌++◌, length, ltb, if◌then◌else◌}
use dep_srpc.SizePack.Policy.{Policy}

-- `std::distance(begin, end) < max_length ? 0 : max_length`.
unfoldable pub size_length : ℕ → List ℕ → ℕ
size_length width bytes = if ltb (length bytes) width then 0 else width

unfoldable pub packed_length : ℕ → ℕ → ℕ
packed_length width input = width

-- `res[current-1] = size & 0xFF; size >>= 8` for `current` down to 1: the list holds the bytes that
-- are written already, from index `current` on.
unfoldable pub pack_loop : ℕ → ℕ → List ℕ → List ℕ
pack_loop zero size written = written
pack_loop (suc current) size written = pack_loop current (size / 256) (bit_and size 0xff ∷ written)

-- The four forms of `pack` and `append` run this loop over their own buffer.
unfoldable pub pack : ℕ → ℕ → List ℕ
pack width size = pack_loop width size []

unfoldable pub append : ℕ → ℕ → List ℕ → List ℕ
append width size res = res ++ pack_loop width size []

-- `res |= (size_type)(uint8_t)(*begin) << ((cur - 1) << 3)`.
unfoldable pub unpack_loop : ℕ → ℕ → List ℕ → ℕ → ℕ
unpack_loop width zero bs res = res
unpack_loop width (suc cur) [] res = res
unpack_loop width (suc cur) (b ∷ bs) res =
    unpack_loop width cur bs (bit_or res (b * 2 ^ (cur * 8) % 2 ^ (width * 8)))

unfoldable pub unpack : ℕ → List ℕ → ℕ
unpack width bytes = unpack_loop width width bytes 0

-- `fixint<size_type>` as a policy.
abbrev pub fixint : ℕ → Policy
fixint width = record {
  min_length = width;
  max_length = width;
  limit = 2 ^ (width * 8);
  size_length = size_length width;
  packed_length = packed_length width;
  pack = pack width;
  unpack = unpack width;
}
