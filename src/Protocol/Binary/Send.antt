-- ===== src/Protocol/Binary/Send.antt =====
-- The prefix of a size in front of a slice.
use dep_srpc.Base.{
  ℕ, zero, suc, ◌+◌, ◌-◌, ◌≤◌, ◌≡◌, refl, sym, ap, ◌∙◌, arith, true, false, leb, Bool-cases, inl,
  inr,
}
use dep_srpc.Base.{List, [], ◌∷◌, ◌++◌, length, take, drop, replicate, length-take, drop-append}
use dep_srpc.SizePack.Policy.{Policy}
use dep_srpc.Protocol.Binary.{Slice, slice_bytes, write_at, insert_size_prefix}

take_more : (xs ys : List ℕ) (n : ℕ) → take (n + length xs) (xs ++ ys) ≡ xs ++ take n ys
take_more [] ys n = ap (λ k. take k ys) zero_out
  where
    zero_out : n + 0 ≡ n
    zero_out = omega arith
take_more (x ∷ xs) ys n =
    ap (λ k. take k (x ∷ (xs ++ ys))) suc_out ∙ ap (λ t. x ∷ t) (take_more xs ys n)
  where
    suc_out : n + suc (length xs) ≡ suc (n + length xs)
    suc_out = omega arith

length-take_le : (n : ℕ) (xs : List ℕ) → n ≤ length xs → length (take n xs) ≡ n
length-take_le n xs h = ground (arith, length-take n xs)

-- The bytes written, with those behind them.
write_at-slice :
    (buf bs : List ℕ) (i n : ℕ)
    → i ≤ length buf
    → take (n + length bs) (drop i (write_at buf i bs)) ≡ bs ++ take n (drop (i + length bs) buf)
unfolding write_at
write_at-slice buf bs i n inside =
    let behind : List ℕ = bs ++ drop (i + length bs) buf in
    let front : drop i (take i buf ++ behind) ≡ behind =
      ap (λ k. drop k (take i buf ++ behind)) (sym (length-take_le i buf inside))
      ∙ drop-append (take i buf) behind in
    ap (λ xs. take (n + length bs) xs) front ∙ take_more bs (drop (i + length bs) buf) n

pub length-replicate : (n : ℕ) → length {A = ℕ} (replicate n 0) ≡ n
length-replicate zero = refl
length-replicate (suc n) = ap (λ k. suc k) (length-replicate n)

-- Zero bytes in front of the buffer.
pub drop_zeros : (n k : ℕ) (buf : List ℕ) → drop (n + k) (replicate n 0 ++ buf) ≡ drop k buf
drop_zeros zero k buf = ap (λ m. drop m buf) zero_out
  where
    zero_out : 0 + k ≡ k
    zero_out = omega arith
drop_zeros (suc n) k buf =
    ap (λ m. drop m (0 ∷ (replicate n 0 ++ buf))) suc_out ∙ drop_zeros n k buf
  where
    suc_out : suc n + k ≡ suc (n + k)
    suc_out = omega arith

insert_size_prefix-room :
    (p : Policy) (buf : List ℕ) (s : Slice)
    → leb (p.packed_length s.size) s.start ≡ true
    → insert_size_prefix p buf s ≡ (
      write_at buf (s.start - p.packed_length s.size) (p.pack s.size),
      record { start = s.start - p.packed_length s.size; size = s.size + p.packed_length s.size },
    )
unfolding insert_size_prefix
insert_size_prefix-room p buf s room = rw room refl

insert_size_prefix-tight :
    (p : Policy) (buf : List ℕ) (s : Slice)
    → leb (p.packed_length s.size) s.start ≡ false
    → insert_size_prefix p buf s ≡ (
      write_at (replicate (p.packed_length s.size - s.start) 0 ++ buf) 0 (p.pack s.size),
      record { start = 0; size = s.size + p.packed_length s.size },
    )
unfolding insert_size_prefix
insert_size_prefix-tight p buf s tight = rw tight refl

written :
    (out bs : List ℕ) (i n k : ℕ)
    → length bs ≡ k
    → i ≤ length out
    → slice_bytes (write_at out i bs) (record { start = i; size = n + k })
      ≡ bs ++ take n (drop (i + k) out)
unfolding slice_bytes
written out bs i n k measured inside =
    let slice : List ℕ = drop i (write_at out i bs) in
    ap (λ m. take (n + m) slice) (sym measured)
    ∙ write_at-slice out bs i n inside
    ∙ ap (λ m. bs ++ take n (drop (i + m) out)) measured

with_room :
    (p : Policy) (buf : List ℕ) (s : Slice)
    → length (p.pack s.size) ≡ p.packed_length s.size
    → s.start + s.size ≤ length buf
    → leb (p.packed_length s.size) s.start ≡ true
    → slice_bytes (write_at buf (s.start - p.packed_length s.size) (p.pack s.size)) (record {
      start = s.start - p.packed_length s.size;
      size = s.size + p.packed_length s.size;
    })
      ≡ p.pack s.size ++ slice_bytes buf s
unfolding slice_bytes
with_room p buf s measured inside room =
    let k : ℕ = p.packed_length s.size in
    let back : (s.start - k) + k ≡ s.start = ground arith in
    written buf (p.pack s.size) (s.start - k) s.size k measured (omega arith)
    ∙ ap (λ m. p.pack s.size ++ take s.size (drop m buf)) back

without_room :
    (p : Policy) (buf : List ℕ) (s : Slice)
    → length (p.pack s.size) ≡ p.packed_length s.size
    → s.start + s.size ≤ length buf
    → leb (p.packed_length s.size) s.start ≡ false
    → slice_bytes
        (write_at (replicate (p.packed_length s.size - s.start) 0 ++ buf) 0 (p.pack s.size))
        (record { start = 0; size = s.size + p.packed_length s.size })
      ≡ p.pack s.size ++ slice_bytes buf s
unfolding slice_bytes
without_room p buf s measured inside tight =
    let k : ℕ = p.packed_length s.size in
    let out : List ℕ = replicate (k - s.start) 0 ++ buf in
    let split : 0 + k ≡ (k - s.start) + s.start = ground arith in
    written out (p.pack s.size) 0 s.size k measured (omega arith)
    ∙ ap (λ m. p.pack s.size ++ take s.size (drop m out)) split
    ∙ ap (λ t. p.pack s.size ++ take s.size t) (drop_zeros (k - s.start) s.start buf)

-- For a slice that lies inside its buffer, and whose size is packed in as many bytes as
-- `packed_length` says, which the varint policy does not do for an empty slice: the slice of the
-- result is the packed size, and then the bytes of the slice, whether there is room in front of it
-- or not.
pub insert_size_prefix-slice :
    (p : Policy) (buf : List ℕ) (s : Slice)
    → length (p.pack s.size) ≡ p.packed_length s.size
    → s.start + s.size ≤ length buf
    → let (out, t) = insert_size_prefix p buf s in
      slice_bytes out t ≡ p.pack s.size ++ slice_bytes buf s
insert_size_prefix-slice p buf s measured inside =
    elim (Bool-cases (leb (p.packed_length s.size) s.start)) [
      | inl room ↦
          ap (λ r. slice_bytes r.0 r.1) (insert_size_prefix-room p buf s room)
          ∙ with_room p buf s measured inside room
      | inr tight ↦
          ap (λ r. slice_bytes r.0 r.1) (insert_size_prefix-tight p buf s tight)
          ∙ without_room p buf s measured inside tight
    ]
