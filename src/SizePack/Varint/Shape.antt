-- ===== src/SizePack/Varint/Shape.antt =====
-- The byte strings that `append` writes, as an inductive family, and how the scanning loops of
-- `size_length` and `unpack` run over them.
use mathlib.Core.WellFounded.{Acc}
use native.Mathlib.Bridge.{le_prop}
use native.Mathlib.Decide.{dec_lt}
use mathlib.Core.Logic.{dif_pos, dif_neg}
use native.Mathlib.Nat.{mod-eq_of_lt, div-add-mod, pow-le-pow_right}
use native.Mathlib.Numerals.{towards_suc}
use dep_srpc.Base.{
  ℕ, zero, suc, ◌+◌, ◌-◌, ◌*◌, ◌/◌, ◌%◌, ◌^◌, ◌≤◌, ◌<◌, ◌≡◌, refl, arith, bit_and, bit_or,
}
use dep_srpc.Base.{List, [], ◌∷◌, ◌++◌, length, append_assoc, ◌==◌}
use dep_srpc.Base.{true, false, ◌∙◌, ap}
use dep_srpc.Base.Bits.{bit_and-low_seven, bit_and-top, bit_or-top, bit_or-shifted}
use dep_srpc.SizePack.Varint.{
  append_loop, size_length_loop, unpack_loop, packed_length_loop, add_group,
}

pub data IsVarint : ℕ → List ℕ → Type 0 where
  final : {v : ℕ} → v < 128 → IsVarint v (v ∷ [])
  group :
      {v : ℕ} {bs : List ℕ} → 128 ≤ v → IsVarint (v / 128) bs → IsVarint v ((v % 128 + 128) ∷ bs)

inner_group : (v : ℕ) → bit_or (bit_and v 0x7f) 0x80 ≡ v % 128 + 128
inner_group v = rw (bit_and-low_seven v) (bit_or-top (v % 128) (omega arith))

-- `append` keeps what the string held and adds a varint.
pub append_loop-IsVarint :
    (res : List ℕ) (v : ℕ) (w : Acc ◌<◌ v)
    → (bs : List ℕ) × (append_loop res v w ≡ res ++ bs) × IsVarint v bs
unfolding append_loop
append_loop-IsVarint res v (Acc.intro _ smaller) = elim (dec_lt 0x7f v) [
  | yes more ↦
      let head : List ℕ = (v % 128 + 128) ∷ [] in
      let (bs, e, s) =
        append_loop-IsVarint (res ++ head) (v / 128) (smaller (v / 128) (omega arith)) in
      (
        (v % 128 + 128) ∷ bs,
        rw (dif_pos _ le_prop more, inner_group v) (e ∙ append_assoc res head bs),
        group (omega arith) s,
      )
  | no done ↦ (v ∷ [], rw (dif_neg _ done), final (omega arith))
]

continues : (v : ℕ) → (bit_and (v % 128 + 128) 0x80 == 0) ≡ false
continues v = ground (arith, bit_and-top (v % 128 + 128))

stops : (v : ℕ) → v < 128 → (bit_and v 0x80 == 0) ≡ true
stops v h = ground (arith, bit_and-top v)

size_stop :
    (bs : List ℕ) (n last : ℕ) → (bit_and last 0x80 == 0) ≡ true → size_length_loop bs n last ≡ n
unfolding size_length_loop
size_stop [] n last h = rw h
size_stop (b ∷ bs) n last h = rw h

-- The scan of a varint counts its bytes and does not look past them.
pub size_length_loop-IsVarint :
    {v : ℕ} {bs : List ℕ} (n last : ℕ) (rest : List ℕ)
    → IsVarint v bs
    → (bit_and last 0x80 == 0) ≡ false
    → size_length_loop (bs ++ rest) n last ≡ n + length bs
unfolding size_length_loop
size_length_loop-IsVarint n last rest (final {v} h) go =
    rw go (size_stop rest (n + 1) v (stops v h))
size_length_loop-IsVarint n last rest (group {v} {bs} h s) go =
    rw go (size_length_loop-IsVarint (n + 1) (v % 128 + 128) rest s (continues v) ∙ omega arith)

unpack_stop :
    (bits : ℕ) (bs : List ℕ) (res shift last : ℕ)
    → (bit_and last 0x80 == 0) ≡ true
    → unpack_loop bits bs res shift last ≡ res
unfolding unpack_loop
unpack_stop bits [] res shift last h = refl
unpack_stop bits (b ∷ bs) res shift last h = rw h

-- One group, where the sum fits the width.
add_group-fits :
    (bits res b shift g : ℕ)
    → b % 128 ≡ g
    → res < 2 ^ shift
    → res + g * 2 ^ shift < 2 ^ bits
    → add_group bits res b shift ≡ res + g * 2 ^ shift
add_group-fits bits res b shift g e low fits =
    let inside : g * 2 ^ shift % 2 ^ bits ≡ g * 2 ^ shift = mod-eq_of_lt (omega arith) in
    rw (bit_and-low_seven b, e, inside) (bit_or-shifted shift res g low)

shift_seven : (s : ℕ) → 2 ^ (s + 7) ≡ 128 * 2 ^ s
shift_seven s = simp towards_suc (omega arith)

split_group : (v s : ℕ) → v * 2 ^ s ≡ v % 128 * 2 ^ s + v / 128 * 2 ^ (s + 7)
split_group v s = omega (
  arith,
  ap (λ (t : ℕ). t * 2 ^ s) (div-add-mod v 128),
  ap (λ (t : ℕ). v / 128 * t) (shift_seven s),
)

-- `unpack` adds the number above the bits that it holds already.
pub unpack_loop-IsVarint :
    {v : ℕ} {bs : List ℕ} (bits res shift last : ℕ) (rest : List ℕ)
    → IsVarint v bs
    → (bit_and last 0x80 == 0) ≡ false
    → res < 2 ^ shift
    → res + v * 2 ^ shift < 2 ^ bits
    → unpack_loop bits (bs ++ rest) res shift last ≡ res + v * 2 ^ shift
unfolding unpack_loop
unpack_loop-IsVarint bits res shift last rest (final {v} h) go low fits =
    rw (go, unpack_stop bits rest _ (shift + 7) v (stops v h))
      (add_group-fits bits res v shift v (omega arith) low fits)
unpack_loop-IsVarint bits res shift last rest (group {v} {bs} h s) go low fits =
    rw (go, add_group-fits bits res (v % 128 + 128) shift (v % 128) (omega arith) low lower)
      (unpack_loop-IsVarint bits (res + v % 128 * 2 ^ shift) (shift + 7) (v % 128 + 128) rest s
          (continues v) (grind (arith, shift_seven shift)) (omega (arith, split_group v shift))
        ∙ omega (arith, split_group v shift))
  where
    lower : res + v % 128 * 2 ^ shift < 2 ^ bits
    lower = omega (arith, split_group v shift)

-- At most one byte for each seven bits, and one more.
pub length-IsVarint :
    {v : ℕ} {bs : List ℕ} (n : ℕ) → IsVarint v bs → v < 2 ^ n → length bs ≤ n / 7 + 1
length-IsVarint n (final h) lt = omega arith
length-IsVarint n (group {v} {bs} h s) lt = elim (dec_lt n 7) [
  | yes small ↦ absurd (omega (arith, pow-le-pow_right {n = 2} (omega arith) (lt_of_suc small)))
  | no large ↦
      let e : n - 7 + 7 ≡ n = omega arith in
      omega
        (arith, length-IsVarint (n - 7) s (omega (arith, shift_seven (n - 7), ap (λ t. 2 ^ t) e)))
]
  where
    lt_of_suc : n < 7 → n ≤ 7
    lt_of_suc h = omega arith

pub length-IsVarint_pos : {v : ℕ} {bs : List ℕ} → IsVarint v bs → 1 ≤ length bs
length-IsVarint_pos (final h) = omega arith
length-IsVarint_pos (group h s) = omega arith

packed_length_loop-zero : (res : ℕ) (w : Acc ◌<◌ 0) → packed_length_loop res 0 w ≡ res
unfolding packed_length_loop dec_lt
packed_length_loop-zero res (Acc.intro _ smaller) = refl

packed_length_loop_step :
    (res v : ℕ) (w : Acc ◌<◌ v)
    → 0 < v
    → (w' : Acc ◌<◌ (v / 128)) × (packed_length_loop res v w
        ≡ packed_length_loop (res + 1) (v / 128) w')
unfolding packed_length_loop
packed_length_loop_step res v (Acc.intro _ smaller) h =
    (smaller (v / 128) (omega arith), dif_pos (dec_lt 0 v) le_prop h _ _)

-- The groups of a positive number are counted one by one.
pub packed_length_loop-IsVarint :
    {v : ℕ} {bs : List ℕ} (res : ℕ) (w : Acc ◌<◌ v)
    → IsVarint v bs
    → 0 < v
    → packed_length_loop res v w ≡ res + length bs
packed_length_loop-IsVarint res w (final {v} h) pos =
    let (w', e) = packed_length_loop_step res v w pos in
    let none_left : v / 128 ≡ 0 = omega arith in e ∙ zero_left (v / 128) w' none_left
  where
    zero_left : (n : ℕ) (w' : Acc ◌<◌ n) → n ≡ 0 → packed_length_loop (res + 1) n w' ≡ res + 1
    zero_left zero w' e = packed_length_loop-zero (res + 1) w'
    zero_left (suc n) w' e = absurd (omega arith)
packed_length_loop-IsVarint res w (group {v} {bs} h s) pos =
    let (w', e) = packed_length_loop_step res v w pos in
    e ∙ packed_length_loop-IsVarint (res + 1) w' s (omega arith) ∙ omega arith
