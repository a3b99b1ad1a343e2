-- ===== src/Hash/Crc32.antt =====
-- include/srpc/common/hash/crc32.h: the reflected CRC-32 by table, and its big-endian form on the
-- wire. A 32-bit word is a number below 2 ^ 32 and a `char` is its byte value.
pub mod Table
pub mod Errors
pub mod Laws
use Table.{crc_table}
use dep_srpc.Base.{
  ℕ, ◌+◌, ◌-◌, ◌*◌, ◌/◌, ◌%◌, ◌^◌, bit_and, bit_xor, List, [], ◌∷◌, get_or, ◌==◌, Bool, ◌&&◌, false,
}
use dep_srpc.Hash.Hasher.{Hasher}

abbrev pub poly : ℕ
poly = 0xedb88320

-- `crc_32_table[id % 0x100]`.
unfoldable pub get_value : ℕ → ℕ
get_value id = get_or crc_table (id % 0x100) 0

unfoldable pub update : ℕ → ℕ → ℕ
update old val = bit_xor (get_value (bit_xor old val)) (old / 256)

-- The loop over `data`.
unfoldable pub update_all : ℕ → List ℕ → ℕ
update_all crc [] = crc
update_all crc (b ∷ bs) = update_all (update crc b) bs

-- `oldcrc = ~oldcrc` after the loop.
unfoldable pub crc_value : List ℕ → ℕ
crc_value bytes = 2 ^ 32 - 1 - update_all 0xffffffff bytes

-- `(oldcrc >> 24) & 0xFF` and so on.
abbrev pub crc_bytes : ℕ → List ℕ
crc_bytes crc =
    bit_and (crc / 2 ^ 24) 0xff
    ∷ bit_and (crc / 2 ^ 16) 0xff
    ∷ bit_and (crc / 2 ^ 8) 0xff
    ∷ bit_and crc 0xff
    ∷ []

unfoldable pub get : List ℕ → List ℕ
get bytes = crc_bytes (crc_value bytes)

-- The four comparisons. The source reads `res[0]` to `res[3]`; a shorter list has no such bytes.
unfoldable pub same_bytes : ℕ → List ℕ → Bool
same_bytes crc (a ∷ b ∷ c ∷ d ∷ rest) =
    a == bit_and (crc / 2 ^ 24) 0xff
    && (b == bit_and (crc / 2 ^ 16) 0xff
        && (c == bit_and (crc / 2 ^ 8) 0xff && d == bit_and crc 0xff))
same_bytes crc _ = false

unfoldable pub check : List ℕ → List ℕ → Bool
check bytes res = same_bytes (crc_value bytes) res

-- `hash::crc32` as a `hash::interface`.
abbrev pub crc32 : Hasher
crc32 = record { length_of = 4; get = get; check = check }
