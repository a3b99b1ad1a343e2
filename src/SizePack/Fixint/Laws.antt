-- ===== src/SizePack/Fixint/Laws.antt =====
-- What fixint.h promises: a prefix of constant length and a round trip on every value of the width.
use native.Mathlib.Nat.{div-add-mod, mod-lt, mod-eq_of_lt, mul-add-mod_self_left}
use mathlib.Core.Path.{ap₂}
use native.Mathlib.Nat.{div-div-eq-div-mul, one-le-pow}
use native.Mathlib.Numerals.{towards_suc}
use dep_srpc.Base.{ℕ, zero, suc, ◌+◌, ◌*◌, ◌/◌, ◌%◌, ◌^◌, ◌≤◌, ◌<◌, ◌≡◌, refl, ap, sym, ◌∙◌, arith}
use dep_srpc.Base.{
  bit_and, List, [], ◌∷◌, ◌++◌, length, append_assoc, append-nil, length-append, bit_or,
}
use dep_srpc.Base.Bits.{bit_and-low_byte, shifted-bit_or}
use dep_srpc.SizePack.Policy.{IsPrefix, IsCodec}
use dep_srpc.SizePack.Fixint.{
  fixint, size_length, pack_loop, pack, unpack_loop, unpack, packed_length,
}

pow_bytes : (c : ℕ) → 2 ^ (suc c * 8) ≡ 256 * 2 ^ (c * 8)
pow_bytes c = let e : suc c * 8 ≡ c * 8 + 8 = omega arith in rw e (simp towards_suc (omega arith))

pow_pos : (c : ℕ) → 1 ≤ 2 ^ (c * 8)
pow_pos c = one-le-pow (c * 8) 2 (omega arith)

-- The bytes of `v`, highest first.
pub big_endian : ℕ → ℕ → List ℕ
big_endian zero v = []
big_endian (suc c) v = (v / 2 ^ (c * 8)) ∷ big_endian c (v % 2 ^ (c * 8))

low_byte_of_mod :
    (p v : ℕ) → 1 ≤ p → (v % (256 * p) / 256 ≡ v / 256 % p) × (v % (256 * p) % 256 ≡ v % 256)
low_byte_of_mod zero v h = absurd (omega arith)
low_byte_of_mod (suc p) v h = (
  sym (
      ap (λ t. t % suc p) split
      ∙ mul-add-mod_self_left (suc p) (v / (256 * suc p)) (v % (256 * suc p) / 256)
      ∙ mod-eq_of_lt (omega (arith, mod-lt v {m = 256 * suc p} (omega arith)))),
  omega (arith, parts),
)
  where
    parts : 256 * (suc p * (v / (256 * suc p))) + v % (256 * suc p) ≡ v
    parts = omega (arith, div-add-mod v (256 * suc p))

    split : v / 256 ≡ suc p * (v / (256 * suc p)) + v % (256 * suc p) / 256
    split = omega (arith, parts)

low_byte :
    (c v : ℕ)
    → (v % 2 ^ (suc c * 8) / 256 ≡ v / 256 % 2 ^ (c * 8)) × (v % 2 ^ (suc c * 8) % 256 ≡ v % 256)
low_byte c v = rw (pow_bytes c) (low_byte_of_mod (2 ^ (c * 8)) v (pow_pos c))

quotient : (c v : ℕ) → v / 2 ^ (suc c * 8) ≡ v / 256 / 2 ^ (c * 8)
quotient c v = rw (pow_bytes c) (sym (div-div-eq-div-mul v 256 (2 ^ (c * 8))))

regroup : (p q g b : ℕ) → q ≡ 256 * p → g * q + b * p ≡ (g * 256 + b) * p
regroup p q g b e = omega (arith, ap (λ (t : ℕ). g * t) e)

big_endian-snoc :
    (c v : ℕ)
    → v < 2 ^ (suc c * 8)
    → big_endian (suc c) v ≡ big_endian c (v / 256) ++ (v % 256) ∷ []
unfolding big_endian
big_endian-snoc zero v h = ap (λ t. t ∷ []) (omega arith)
big_endian-snoc (suc c) v h =
    ap₂ (λ x xs. x ∷ xs) (quotient c v)
      (big_endian-snoc c (v % 2 ^ (suc c * 8)) (mod-lt v (pow_pos (suc c)))
        ∙ ap₂ (λ x y. big_endian c x ++ y ∷ []) (low_byte c v).0 (low_byte c v).1)

pack_loop-big_endian :
    (c v : ℕ) (tail : List ℕ) → v < 2 ^ (c * 8) → pack_loop c v tail ≡ big_endian c v ++ tail
unfolding pack_loop
pack_loop-big_endian zero v tail h = unfold big_endian in refl
pack_loop-big_endian (suc c) v tail h =
    pack_loop-big_endian c (v / 256) (bit_and v 0xff ∷ tail) (omega (arith, pow_bytes c))
    ∙ rw (bit_and-low_byte v, big_endian-snoc c v h, append_assoc)

length-big_endian : (c v : ℕ) → length (big_endian c v) ≡ c
unfolding big_endian
length-big_endian zero v = refl
length-big_endian (suc c) v = ap suc (length-big_endian c _)

unpack_loop-big_endian :
    (width c v g : ℕ) (rest : List ℕ)
    → c ≤ width
    → g * 2 ^ (c * 8) + v < 2 ^ (width * 8)
    → v < 2 ^ (c * 8)
    → unpack_loop width c (big_endian c v ++ rest) (g * 2 ^ (c * 8)) ≡ g * 2 ^ (c * 8) + v
unfolding big_endian unpack_loop
unpack_loop-big_endian width zero v g rest le fits h = omega arith
unpack_loop-big_endian width (suc c) v g rest le fits h =
    ap (unpack_loop width c (big_endian c (v % p) ++ rest)) (wide ∙ joined)
    ∙ unpack_loop-big_endian width c (v % p) (g * 256 + b) rest (omega arith)
        (omega (arith, parts, regroup p (2 ^ (suc c * 8)) g b (pow_bytes c))) (mod-lt v (pow_pos c))
    ∙ omega (arith, parts, regroup p (2 ^ (suc c * 8)) g b (pow_bytes c))
  where
    p : ℕ
    p = 2 ^ (c * 8)

    b : ℕ
    b = v / p

    parts : p * b + v % p ≡ v
    parts = div-add-mod v p

    wide :
        bit_or (g * 2 ^ (suc c * 8)) (b * p % 2 ^ (width * 8))
        ≡ bit_or (g * 2 ^ (suc c * 8)) (b * p)
    wide = ap (bit_or (g * 2 ^ (suc c * 8))) (mod-eq_of_lt (omega (arith, parts)))

    joined : bit_or (g * 2 ^ (suc c * 8)) (b * p) ≡ (g * 256 + b) * p
    joined =
        shifted-bit_or (suc c * 8) (b * p) g (omega (arith, parts))
        ∙ regroup p (2 ^ (suc c * 8)) g b (pow_bytes c)

unpack_loop-append :
    (width c : ℕ) (bs more : List ℕ) (res : ℕ)
    → c ≤ length bs
    → unpack_loop width c (bs ++ more) res ≡ unpack_loop width c bs res
unfolding unpack_loop
unpack_loop-append width zero bs more res h = refl
unpack_loop-append width (suc c) [] more res h = absurd (omega arith)
unpack_loop-append width (suc c) (b ∷ bs) more res h =
    unpack_loop-append width c bs more _ (omega arith)

-- Bytes that arrive behind a complete prefix change neither its length nor its value.
pub fixint-IsPrefix : (width : ℕ) → 1 ≤ width → IsPrefix (fixint width)
unfolding size_length unpack
fixint-IsPrefix width pos = record {
  min_pos = pos;
  size_length_le = λ bs. ground arith;
  size_length_append = λ bs more h. ground (arith, length-append bs more);
  unpack_append = λ bs more h. unpack_loop-append width width bs more 0 (ground arith);
}

pack-big_endian : (width v : ℕ) → v < 2 ^ (width * 8) → pack width v ≡ big_endian width v
unfolding pack
pack-big_endian width v h = pack_loop-big_endian width v [] h ∙ append-nil _

-- A value of the width takes `width` bytes and is read back.
pub fixint-IsCodec : (width : ℕ) → IsCodec (fixint width)
unfolding size_length unpack
fixint-IsCodec width = record {
  size_length_pack = λ v rest h.
      rw
        (
          pack-big_endian width v h,
          length-append (big_endian width v) rest,
          length-big_endian width v,
        )
        (ground arith);
  unpack_pack = λ v rest h. rw (pack-big_endian width v h) (
      ap (unpack_loop width width (big_endian width v ++ rest)) (omega arith)
      ∙ unpack_loop-big_endian width width v 0 rest (omega arith) (omega arith) h
      ∙ omega arith);
  length_pack =
      λ v h. rw (pack-big_endian width v h, length-big_endian width v) (omega arith, omega arith);
}

-- `packed_length` is the number of bytes that `pack` writes.
pub packed_length-pack :
    (width v : ℕ) → v < 2 ^ (width * 8) → length (pack width v) ≡ packed_length width v
unfolding packed_length
packed_length-pack width v h = rw (pack-big_endian width v h) (length-big_endian width v)
