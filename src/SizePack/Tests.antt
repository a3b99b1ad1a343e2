-- ===== src/SizePack/Tests.antt =====
-- Concrete runs of the size policies, and their theorems at concrete widths and values.
use dep_srpc.Base.{◌≡◌, refl, arith, [], ◌∷◌}
use dep_srpc.SizePack.Policy.{IsPrefix, IsCodec}
use dep_srpc.SizePack.Varint
use dep_srpc.SizePack.Varint.{varint}
use dep_srpc.SizePack.Varint.Laws.{varint-IsCodec, append-pack}
use dep_srpc.SizePack.Fixint
use dep_srpc.SizePack.Fixint.{fixint}
use dep_srpc.SizePack.Fixint.Laws.{fixint-IsPrefix, fixint-IsCodec}
use dep_srpc.SizePack.ZigZag
use dep_srpc.SizePack.ZigZag.Laws.{to_signed-to_unsigned, to_unsigned-to_signed}

fixint_300 : Fixint.pack 4 300 ≡ 0 ∷ 0 ∷ 1 ∷ 44 ∷ []
unfolding Fixint.pack Fixint.pack_loop
fixint_300 = refl

zigzag_minus_one : ZigZag.to_unsigned 31 0xffffffff ≡ 1
unfolding ZigZag.to_unsigned
zigzag_minus_one = refl

varint-IsCodec_example : IsCodec (varint 32)
varint-IsCodec_example = varint-IsCodec 32

fixint-IsPrefix_example : IsPrefix (fixint 4)
fixint-IsPrefix_example = fixint-IsPrefix 4 (omega arith)

fixint-IsCodec_example : IsCodec (fixint 4)
fixint-IsCodec_example = fixint-IsCodec 4

append-pack_example : Varint.append 300 (7 ∷ []) ≡ 7 ∷ Varint.pack 300
append-pack_example = append-pack 300 (7 ∷ [])

to_signed-to_unsigned_example : ZigZag.to_signed 31 (ZigZag.to_unsigned 31 0xfffffffe) ≡ 0xfffffffe
to_signed-to_unsigned_example = to_signed-to_unsigned 31 0xfffffffe (omega arith)

to_unsigned-to_signed_example : ZigZag.to_unsigned 31 (ZigZag.to_signed 31 3) ≡ 3
to_unsigned-to_signed_example = to_unsigned-to_signed 31 3 (omega arith)
