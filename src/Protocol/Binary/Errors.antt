-- ===== src/Protocol/Binary/Errors.antt =====
-- A message that is damaged on its way.
use dep_srpc.Base.{
  ℕ, ◌-◌, ◌<◌, ◌≡◌, ◌≢◌, refl, arith, true, false, leb, All, List, ◌∷◌, ◌++◌, length, take, drop,
  length-append, take-append, drop-append,
}
use dep_srpc.SizePack.Policy.{Policy}
use dep_srpc.Hash.Hasher.{Hasher}
use dep_srpc.Hash.Crc32.{crc32, get}
use dep_srpc.Hash.Crc32.Laws.{crc32-IsHasher}
use dep_srpc.Hash.Crc32.Errors.{check-one_byte}
use dep_srpc.Protocol.Binary.{bad_checksum, on_message}

module _ (tag_policy : Policy) (hash : Hasher) (unpack_message : List ℕ → List ℕ) where
  -- A message of a body and bytes of a checksum's length that the hash does not take for it.
  on_message-unchecked :
      (bytes body sum : List ℕ)
      → unpack_message bytes ≡ body ++ sum
      → length sum ≡ hash.length_of
      → hash.check body sum ≡ false
      → on_message tag_policy hash unpack_message bytes ≡ bad_checksum
  unfolding on_message
  on_message-unchecked bytes body sum unpacked size refused =
      let cut : length (body ++ sum) - hash.length_of ≡ length body =
        omega (arith, length-append body sum, size) in
      let enough : leb hash.length_of (length (body ++ sum)) ≡ true =
        ground (arith, length-append body sum, size) in
      let test : hash.check (take (length (body ++ sum) - hash.length_of) (body ++ sum))
            (drop (length (body ++ sum) - hash.length_of) (body ++ sum))
          ≡ false =
        rw (cut, take-append body sum, drop-append body sum) refused in
      rw (unpacked, enough, test) refl

-- A message with its CRC-32 behind it, of which exactly one byte before the checksum was changed,
-- is refused for its checksum, whether or not there are tags.
pub on_message-one_byte :
    (tag_policy : Policy) (unpack_message : List ℕ → List ℕ) (bytes xs : List ℕ) (a b : ℕ)
    (ys : List ℕ)
    → a < 256
    → b < 256
    → a ≢ b
    → All (λ c. c < 256) ys
    → unpack_message bytes ≡ (xs ++ b ∷ ys) ++ get (xs ++ a ∷ ys)
    → on_message tag_policy crc32 unpack_message bytes ≡ bad_checksum
on_message-one_byte tag_policy unpack_message bytes xs a b ys h k differs ks unpacked =
    on_message-unchecked tag_policy crc32 unpack_message bytes (xs ++ b ∷ ys) (get (xs ++ a ∷ ys))
      unpacked (crc32-IsHasher.length_get (xs ++ a ∷ ys)) (check-one_byte xs a b ys h k differs ks)
