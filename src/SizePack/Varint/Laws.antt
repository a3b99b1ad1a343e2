-- ===== src/SizePack/Varint/Laws.antt =====
-- What varint.h promises: a self-delimiting prefix, and a round trip on every value of the width.
use dep_srpc.Base.{ℕ, suc, ◌+◌, ◌≤◌, ◌≡◌, refl, arith}
use dep_srpc.Base.{List, [], ◌∷◌, ◌++◌, length, ◌==◌, if◌then◌else◌}
use dep_srpc.Base.{zero, ◌%◌, sym, ap, ◌∙◌}
use dep_srpc.Base.Order.{lt_wf}
use native.Mathlib.Decide.{dec_lt}
use mathlib.Core.Path.{subst}
use dep_srpc.SizePack.Policy.{IsPrefix, IsCodec}
use dep_srpc.SizePack.Varint.{
  varint, append_loop, append, pack, size_length_loop, size_length, unpack_loop, unpack,
  packed_length, add_group,
}
use dep_srpc.SizePack.Varint.Shape.{
  IsVarint, final, group, append_loop-IsVarint, size_length_loop-IsVarint, unpack_loop-IsVarint,
  length-IsVarint, length-IsVarint_pos, packed_length_loop-IsVarint,
}

size_length_loop-le : (bs : List ℕ) (n last : ℕ) → size_length_loop bs n last ≤ n + length bs
unfolding size_length_loop
size_length_loop-le [] n last = ground arith
size_length_loop-le (b ∷ bs) n last = ground (arith, size_length_loop-le bs (n + 1) b)

size_length_loop-append :
    (bs more : List ℕ) (n last : ℕ)
    → 1 ≤ size_length_loop bs n last
    → size_length_loop (bs ++ more) n last ≡ size_length_loop bs n last
unfolding size_length_loop
size_length_loop-append [] [] n last h = refl
size_length_loop-append [] (c ∷ more) n last h = ground arith
size_length_loop-append (b ∷ bs) more n last h =
    ground (arith, size_length_loop-append bs more (n + 1) b)

unpack_loop-append :
    (bits : ℕ) (bs more : List ℕ) (n last res shift : ℕ)
    → 1 ≤ size_length_loop bs n last
    → unpack_loop bits (bs ++ more) res shift last ≡ unpack_loop bits bs res shift last
unfolding size_length_loop unpack_loop
unpack_loop-append bits [] [] n last res shift h = refl
unpack_loop-append bits [] (c ∷ more) n last res shift h = ground arith
unpack_loop-append bits (b ∷ bs) more n last res shift h =
    ground
      (arith, unpack_loop-append bits bs more (n + 1) b (add_group bits res b shift) (shift + 7))

-- Bytes that arrive behind a complete prefix change neither its length nor its value.
pub varint-IsPrefix : (bits : ℕ) → IsPrefix (varint bits)
unfolding size_length unpack
varint-IsPrefix bits = record {
  min_pos = omega arith;
  size_length_le = λ bs. omega (arith, size_length_loop-le bs 0 0x80);
  size_length_append = λ bs more h. size_length_loop-append bs more 0 0x80 h;
  unpack_append = λ bs more h. unpack_loop-append bits bs more 0 0x80 0 0 h;
}

pack-IsVarint : (v : ℕ) → IsVarint v (pack v)
unfolding pack append
pack-IsVarint v =
    let (bs, e, s) = append_loop-IsVarint [] v (lt_wf.apply v) in subst (IsVarint v) (sym e) s

-- A value of the width is packed in at most `bits / 7 + 1` bytes and read back.
pub varint-IsCodec : (bits : ℕ) → IsCodec (varint bits)
unfolding size_length unpack
varint-IsCodec bits = record {
  size_length_pack =
      λ v rest h. size_length_loop-IsVarint 0 0x80 rest (pack-IsVarint v) refl ∙ omega arith;
  unpack_pack = λ v rest h.
      unpack_loop-IsVarint bits 0 0 0x80 rest (pack-IsVarint v) refl (omega arith) (omega arith)
      ∙ omega arith;
  length_pack =
      λ v h. (length-IsVarint_pos (pack-IsVarint v), length-IsVarint bits (pack-IsVarint v) h);
}

IsVarint-unique : {v : ℕ} {bs cs : List ℕ} → IsVarint v bs → IsVarint v cs → bs ≡ cs
IsVarint-unique (final h) (final k) = refl
IsVarint-unique (final h) (group k t) = absurd (omega arith)
IsVarint-unique (group h s) (final k) = absurd (omega arith)
IsVarint-unique (group {v} h s) (group k t) = ap (λ bs. (v % 128 + 128) ∷ bs) (IsVarint-unique s t)

-- `append` keeps the string and adds what `pack` writes.
pub append-pack : (v : ℕ) (res : List ℕ) → append v res ≡ res ++ pack v
unfolding append
append-pack v res =
    let (bs, e, s) = append_loop-IsVarint res v (lt_wf.apply v) in
    e ∙ ap (λ t. res ++ t) (IsVarint-unique s (pack-IsVarint v))

length-pack_zero : length (pack 0) ≡ 1
unfolding pack append append_loop lt_wf dec_lt
length-pack_zero = refl

-- `packed_length` is the number of bytes that `pack` writes, but for 0: there it answers 0, and
-- `pack` writes one byte.
pub packed_length-pack :
    (v : ℕ) → length (pack v) ≡ (if v == 0 then packed_length v + 1 else packed_length v)
unfolding packed_length
packed_length-pack zero = length-pack_zero
packed_length-pack (suc v) = ground (
  arith,
  packed_length_loop-IsVarint 0 (lt_wf.apply (suc v)) (pack-IsVarint (suc v)) (omega arith),
)
