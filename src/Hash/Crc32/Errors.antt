-- ===== src/Hash/Crc32/Errors.antt =====
-- Which errors the checksum shows.
use dep_srpc.Base.{
  ℕ, zero, suc, ◌/◌, ◌%◌, ◌^◌, ◌<◌, ◌≡◌, ◌≢◌, refl, ap, sym, ◌∙◌, arith, bit_and, bit_xor, ltb,
  ltb→lt,
}
use dep_srpc.Base.{
  List, [], ◌∷◌, ◌++◌, ◌==◌, Bool, true, false, ◌&&◌, if◌then◌else◌, Bool-cases, inl, inr, All,
}
use mathlib.Core.Path.{subst}
use dep_srpc.Base.Bits.{bit_and-low_byte}
use dep_srpc.Base.Xor.{zero-bit_xor, bit_xor-zero, bit_xor-shifted, bit_xor-cancel, bit_xor_comm}
use dep_srpc.Hash.Crc32.{get_value, update, update_all, crc_value, crc_bytes, get, check}
use dep_srpc.Hash.Crc32.Table.{crc_table}
use dep_srpc.Hash.Crc32.Laws.{get_value-mod, update_all-append, crc32-IsHasher}

abbrev top_byte : ℕ → ℕ
top_byte w = w / 2 ^ 24

-- The place of the first word with a top byte.
place : ℕ → List ℕ → ℕ
place t [] = 0
place t (w ∷ ws) = if top_byte w == t then 0 else suc (place t ws)

-- Each word of the table is below 2 ^ 32, and is found by its top byte.
all_placed : ℕ → Bool
all_placed zero = true
all_placed (suc n) =
    (ltb (get_value n) 0x100000000 && place (top_byte (get_value n)) crc_table == n) && all_placed n

whole_table : all_placed 256 ≡ true
unfolding all_placed get_value crc_table place
whole_table = refl

both_true : (b c : Bool) → (b && c) ≡ true → (b ≡ true) × (c ≡ true)
both_true true c h = (refl, h)
both_true false c h = absurd (cc)

placed_below :
    (n : ℕ)
    → all_placed n ≡ true
    → (i : ℕ) → i < n
    → (get_value i < 2 ^ 32) × (place (top_byte (get_value i)) crc_table ≡ i)
unfolding all_placed
placed_below zero e i h = absurd (omega arith)
placed_below (suc n) e i h =
    let (here, below) =
      both_true (ltb (get_value n) 0x100000000 && place (top_byte (get_value n)) crc_table == n)
        (all_placed n) e in
    let (small, placed) =
      both_true (ltb (get_value n) 0x100000000) (place (top_byte (get_value n)) crc_table == n)
        here in
    elim (Bool-cases (i == n)) [
      | inl same ↦
          let i_n : n ≡ i = ground arith in
          subst (λ k. (get_value k < 2 ^ 32) × (place (top_byte (get_value k)) crc_table ≡ k)) i_n
            (ltb→lt (get_value n) 0x100000000 small, ground arith)
      | inr other ↦ placed_below n below i (ground arith)
    ]

get_value-small : (id : ℕ) → get_value id < 2 ^ 32
get_value-small id =
    omega (arith, get_value-mod id, (placed_below 256 whole_table (id % 0x100) (omega arith)).0)

-- Two words of the table with the same top byte are one.
get_value-injective :
    (i j : ℕ) → i < 256 → j < 256 → top_byte (get_value i) ≡ top_byte (get_value j) → i ≡ j
get_value-injective i j h k e =
    sym (placed_below 256 whole_table i h).1
    ∙ ap (λ t. place t crc_table) e
    ∙ (placed_below 256 whole_table j k).1

quotient_zero : (w : ℕ) → w < 2 ^ 32 → w / 2 ^ 32 ≡ 0
quotient_zero w h = omega arith

pub update-small : (old val : ℕ) → old < 2 ^ 32 → update old val < 2 ^ 32
unfolding update
update-small old val h =
    let t : ℕ = get_value (bit_xor old val) in
    let q : ℕ = old / 256 in
    let none_above : bit_xor t q / 2 ^ 32 ≡ 0 =
      bit_xor-shifted 32 t q
      ∙ ap (λ k. bit_xor k (q / 2 ^ 32)) (quotient_zero t (get_value-small (bit_xor old val)))
      ∙ ap (λ k. bit_xor 0 k) (quotient_zero q (omega arith))
      ∙ zero-bit_xor 0 in
    omega (arith, none_above)

update-top :
    (old val : ℕ)
    → old < 2 ^ 32
    → top_byte (update old val) ≡ top_byte (get_value (bit_xor old val))
unfolding update
update-top old val h =
    bit_xor-shifted 24 (get_value (bit_xor old val)) (old / 256)
    ∙ ap (λ t. bit_xor (top_byte (get_value (bit_xor old val))) t) (no_top old h)
    ∙ bit_xor-zero (top_byte (get_value (bit_xor old val)))
  where
    no_top : (w : ℕ) → w < 2 ^ 32 → w / 256 / 2 ^ 24 ≡ 0
    no_top w h = omega arith

-- What is above the low byte comes from the old sum.
above_byte : (old val : ℕ) → val < 256 → bit_xor old val / 256 ≡ old / 256
above_byte old val h =
    bit_xor-shifted 8 old val
    ∙ ap (λ k. bit_xor (old / 256) k) (byte_zero val h)
    ∙ bit_xor-zero (old / 256)
  where
    byte_zero : (w : ℕ) → w < 256 → w / 256 ≡ 0
    byte_zero w h = omega arith

-- The step loses nothing: equal results come from equal sums of old value and byte.
update-injective :
    (old old' val val' : ℕ)
    → old < 2 ^ 32
    → old' < 2 ^ 32
    → val < 256
    → val' < 256
    → update old val ≡ update old' val'
    → bit_xor old val ≡ bit_xor old' val'
unfolding update
update-injective old old' val val' h h' k k' e =
    let x : ℕ = bit_xor old val in
    let y : ℕ = bit_xor old' val' in
    let tops : top_byte (get_value x) ≡ top_byte (get_value y) =
      sym (update-top old val h) ∙ ap (λ w. top_byte w) e ∙ update-top old' val' h' in
    let low : x % 256 ≡ y % 256 =
      get_value-injective (x % 256) (y % 256) (omega arith) (omega arith) (
        ap (λ w. top_byte w) (sym (get_value-mod x))
        ∙ tops
        ∙ ap (λ w. top_byte w) (get_value-mod y)) in
    let words : get_value x ≡ get_value y =
      get_value-mod x ∙ ap get_value low ∙ sym (get_value-mod y) in
    let high : old / 256 ≡ old' / 256 = bit_xor-cancel (old / 256) (old' / 256) (get_value x) (
      bit_xor_comm (old / 256) (get_value x)
      ∙ e
      ∙ ap (λ t. bit_xor t (old' / 256)) (sym words)
      ∙ bit_xor_comm (get_value x) (old' / 256)) in
    omega (arith, low, high, above_byte old val k, above_byte old' val' k')

update-old :
    (old old' val : ℕ)
    → old < 2 ^ 32
    → old' < 2 ^ 32
    → val < 256
    → update old val ≡ update old' val
    → old ≡ old'
update-old old old' val h h' k e =
    bit_xor-cancel old old' val (update-injective old old' val val h h' k k e)

update-val :
    (old val val' : ℕ)
    → old < 2 ^ 32
    → val < 256
    → val' < 256
    → update old val ≡ update old val'
    → val ≡ val'
update-val old val val' h k k' e =
    bit_xor-cancel val val' old
      (bit_xor_comm val old ∙ update-injective old old val val' h h k k' e ∙ bit_xor_comm old val')

update_all-small : (crc : ℕ) (bs : List ℕ) → crc < 2 ^ 32 → update_all crc bs < 2 ^ 32
unfolding update_all
update_all-small crc [] h = h
update_all-small crc (b ∷ bs) h = update_all-small (update crc b) bs (update-small crc b h)

update_all-injective :
    (crc crc' : ℕ) (bs : List ℕ)
    → crc < 2 ^ 32
    → crc' < 2 ^ 32
    → All (λ b. b < 256) bs
    → update_all crc bs ≡ update_all crc' bs
    → crc ≡ crc'
unfolding update_all
update_all-injective crc crc' [] h h' k e = e
update_all-injective crc crc' (b ∷ bs) h h' (k, ks) e = update-old crc crc' b h h' k (
    update_all-injective (update crc b) (update crc' b) bs (update-small crc b h)
      (update-small crc' b h') ks e)

-- A message with one byte changed has another sum.
crc_value-one_byte :
    (xs : List ℕ) (a b : ℕ) (ys : List ℕ)
    → a < 256
    → b < 256
    → All (λ c. c < 256) ys
    → crc_value (xs ++ a ∷ ys) ≡ crc_value (xs ++ b ∷ ys)
    → a ≡ b
unfolding crc_value update_all
crc_value-one_byte xs a b ys h k ks e =
    let old : ℕ = update_all 0xffffffff xs in
    let old_small : old < 2 ^ 32 = update_all-small 0xffffffff xs (omega arith) in
    let with_a : update_all 0xffffffff (xs ++ a ∷ ys) ≡ update_all (update old a) ys =
      update_all-append 0xffffffff xs (a ∷ ys) in
    let with_b : update_all 0xffffffff (xs ++ b ∷ ys) ≡ update_all (update old b) ys =
      update_all-append 0xffffffff xs (b ∷ ys) in
    let small_a : update old a < 2 ^ 32 = update-small old a old_small in
    let small_b : update old b < 2 ^ 32 = update-small old b old_small in
    let after_a : update_all (update old a) ys < 2 ^ 32 =
      update_all-small (update old a) ys small_a in
    let after_b : update_all (update old b) ys < 2 ^ 32 =
      update_all-small (update old b) ys small_b in
    update-val old a b old_small h k (
      update_all-injective (update old a) (update old b) ys small_a small_b ks
        (omega (arith, with_a, with_b, after_a, after_b, e)))

crc_value-small : (bs : List ℕ) → crc_value bs < 2 ^ 32
unfolding crc_value
crc_value-small bs = omega arith

crc_bytes-injective : (v w : ℕ) → v < 2 ^ 32 → w < 2 ^ 32 → crc_bytes v ≡ crc_bytes w → v ≡ w
crc_bytes-injective v w h k e =
    let byte_3 : bit_and (v / 2 ^ 24) 0xff ≡ bit_and (w / 2 ^ 24) 0xff = cc in
    let byte_2 : bit_and (v / 2 ^ 16) 0xff ≡ bit_and (w / 2 ^ 16) 0xff = cc in
    let byte_1 : bit_and (v / 2 ^ 8) 0xff ≡ bit_and (w / 2 ^ 8) 0xff = cc in
    let byte_0 : bit_and v 0xff ≡ bit_and w 0xff = cc in
    omega (
      arith,
      byte_3,
      byte_2,
      byte_1,
      byte_0,
      bit_and-low_byte (v / 2 ^ 24),
      bit_and-low_byte (v / 2 ^ 16),
      bit_and-low_byte (v / 2 ^ 8),
      bit_and-low_byte v,
      bit_and-low_byte (w / 2 ^ 24),
      bit_and-low_byte (w / 2 ^ 16),
      bit_and-low_byte (w / 2 ^ 8),
      bit_and-low_byte w,
    )

-- The checksum of a message is refused for each message that differs from it in exactly one byte,
-- whichever byte it is and whatever the difference.
pub check-one_byte :
    (xs : List ℕ) (a b : ℕ) (ys : List ℕ)
    → a < 256
    → b < 256
    → a ≢ b
    → All (λ c. c < 256) ys
    → check (xs ++ b ∷ ys) (get (xs ++ a ∷ ys)) ≡ false
unfolding get
check-one_byte xs a b ys h k differs ks =
    elim (Bool-cases (check (xs ++ b ∷ ys) (get (xs ++ a ∷ ys)))) [
      | inr refused ↦ refused
      | inl taken ↦
          let sums : get (xs ++ a ∷ ys) ≡ get (xs ++ b ∷ ys) =
            crc32-IsHasher.get_of_check (xs ++ b ∷ ys) (get (xs ++ a ∷ ys)) refl taken in
          absurd (
            differs (
              crc_value-one_byte xs a b ys h k ks (
                crc_bytes-injective (crc_value (xs ++ a ∷ ys)) (crc_value (xs ++ b ∷ ys))
                  (crc_value-small (xs ++ a ∷ ys)) (crc_value-small (xs ++ b ∷ ys)) sums)))
    ]
