-- ===== src/Hash/Tests.antt =====
-- Concrete runs of the checksum. The check value of CRC-32 is that of the digits 1 to 9.
use dep_srpc.Base.{◌≡◌, refl, [], ◌∷◌}
use dep_srpc.Hash.Crc32.{get_value, get, update_all, update, crc_value}
use dep_srpc.Hash.Crc32.Table.{crc_table}
use dep_srpc.Hash.Crc32.Laws.{get_value-shift_bits, shift_bits}

digits_sum :
    get (0x31 ∷ 0x32 ∷ 0x33 ∷ 0x34 ∷ 0x35 ∷ 0x36 ∷ 0x37 ∷ 0x38 ∷ 0x39 ∷ [])
    ≡ 0xcb ∷ 0xf4 ∷ 0x39 ∷ 0x26 ∷ []
unfolding get crc_value update_all update get_value crc_table
digits_sum = refl

get_value-shift_bits_example : get_value 0x1ff ≡ shift_bits 8 0xff
get_value-shift_bits_example = get_value-shift_bits 0x1ff
