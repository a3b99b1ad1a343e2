-- ===== src/SizePack/Absent.antt =====
-- include/srpc/common/sizepack/none.h: the policy that writes no prefix; its length is that of the
-- whole range. (`none` is the option type's here, hence the name.)
use dep_srpc.Base.{ℕ, ◌^◌, List, [], length, Bool, true}
use dep_srpc.SizePack.Policy.{Policy}

-- This policy has its own `valid_length`, which takes any length.
unfoldable pub valid_length : ℕ → Bool
valid_length len = true

unfoldable pub size_length : List ℕ → ℕ
size_length bytes = 0

unfoldable pub packed_length : ℕ → ℕ
packed_length size = 0

unfoldable pub pack : ℕ → List ℕ
pack size = []

-- `std::distance(begin, end)`.
unfoldable pub unpack : List ℕ → ℕ
unpack bytes = length bytes

-- `size_type` is `size_t`, of 64 bits.
abbrev pub absent : Policy
absent = record {
  min_length = 0;
  max_length = 0;
  limit = 2 ^ 64;
  size_length = size_length;
  packed_length = packed_length;
  pack = pack;
  unpack = unpack;
}
