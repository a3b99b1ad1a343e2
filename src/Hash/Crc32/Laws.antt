-- ===== src/Hash/Crc32/Laws.antt =====
-- The table against the polynomial, and what the checksum promises.
use dep_srpc.Base.{ℕ, zero, suc, ◌/◌, ◌%◌, ◌<◌, ◌≡◌, refl, bit_xor, ap, arith}
use dep_srpc.Base.{List, [], ◌∷◌, ◌++◌, length, get_or, ◌==◌, Bool, true, ◌&&◌, if◌then◌else◌}
use dep_srpc.Hash.Hasher.{IsHasher}
use dep_srpc.Hash.Crc32.{
  poly, get_value, update, update_all, crc_value, crc_bytes, get, same_bytes, check, crc32,
}
use dep_srpc.Hash.Crc32.Table.{crc_table}

-- One step of the bitwise division: shift right, and subtract the polynomial if a one fell out.
pub shift_bit : ℕ → ℕ
shift_bit crc = if crc % 2 == 1 then bit_xor (crc / 2) poly else crc / 2

pub shift_bits : ℕ → ℕ → ℕ
shift_bits zero crc = crc
shift_bits (suc n) crc = shift_bits n (shift_bit crc)

table_agrees : ℕ → Bool
table_agrees zero = true
table_agrees (suc n) = get_value n == shift_bits 8 n && table_agrees n

table_agrees_below :
    (n : ℕ) → table_agrees n ≡ true → (i : ℕ) → i < n → get_value i ≡ shift_bits 8 i
unfolding table_agrees
table_agrees_below zero e i h = absurd (omega arith)
table_agrees_below (suc n) e i h = ground (arith, table_agrees_below n (ground arith) i)

whole_table : table_agrees 256 ≡ true
unfolding table_agrees get_value crc_table shift_bits shift_bit
whole_table = refl

pub get_value-mod : (id : ℕ) → get_value id ≡ get_value (id % 0x100)
unfolding get_value
get_value-mod id = ap (λ i. get_or crc_table i 0) (omega arith)

-- Each entry of the table is its index divided eight times, bit by bit, by the polynomial.
pub get_value-shift_bits : (id : ℕ) → get_value id ≡ shift_bits 8 (id % 0x100)
get_value-shift_bits id =
    rw get_value-mod (table_agrees_below 256 whole_table (id % 0x100) (omega arith))

-- A message in two parts is summed part by part.
pub update_all-append :
    (crc : ℕ) (xs ys : List ℕ) → update_all crc (xs ++ ys) ≡ update_all (update_all crc xs) ys
unfolding update_all
update_all-append crc [] ys = refl
update_all-append crc (x ∷ xs) ys = update_all-append (update crc x) xs ys

same_bytes_lem :
    (crc : ℕ) (sum : List ℕ) → length sum ≡ 4 → same_bytes crc sum ≡ true → sum ≡ crc_bytes crc
unfolding same_bytes
same_bytes_lem crc [] n h = cc
same_bytes_lem crc (a ∷ []) n h = cc
same_bytes_lem crc (a ∷ b ∷ []) n h = cc
same_bytes_lem crc (a ∷ b ∷ c ∷ []) n h = cc
same_bytes_lem crc (a ∷ b ∷ c ∷ d ∷ []) n h = ground arith
same_bytes_lem crc (a ∷ b ∷ c ∷ d ∷ e ∷ rest) n h = absurd (omega arith)

same_bytes_self : (crc : ℕ) → same_bytes crc (crc_bytes crc) ≡ true
unfolding same_bytes
same_bytes_self crc = ground arith

-- The checksum of a message is the only one that `check` takes for it.
pub crc32-IsHasher : IsHasher crc32
unfolding get check
crc32-IsHasher = record {
  length_get = λ bs. refl;
  check_get = λ bs. same_bytes_self (crc_value bs);
  get_of_check = λ bs sum n h. same_bytes_lem (crc_value bs) sum n h;
}
