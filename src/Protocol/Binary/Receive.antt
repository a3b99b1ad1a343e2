-- ===== src/Protocol/Binary/Receive.antt =====
-- Which messages the protocol takes, and what it hands on.
use dep_srpc.Base.{
  ℕ, suc, ◌+◌, ◌-◌, ◌<◌, ◌≡◌, ◌≢◌, refl, ap, sym, ◌∙◌, arith, ◌⊎◌, inl, inr, true, false, leb,
  if◌then◌else◌, Bool-cases, some,
}
use dep_srpc.Base.{
  List, [], ◌∷◌, ◌++◌, length, take, drop, length-append, length-drop, append_assoc, append-nil,
  take-append, drop-append,
}
use dep_srpc.SizePack.Policy.{Policy, valid_length, IsCodec}
use dep_srpc.SizePack.Absent
use dep_srpc.SizePack.Absent.{absent}
use dep_srpc.Hash.Hasher.{Hasher, IsHasher}
use dep_srpc.Protocol.Binary.{
  Reply, on_message_ready, on_message_past, closes_transport, get_next_item, take_tag, on_message,
}

-- A packed tag is taken off the front.
pub get_next_item-pack :
    (p : Policy)
    → IsCodec p
    → (v : ℕ) (rest : List ℕ) → v < p.limit
    → get_next_item p (p.pack v ++ rest) ≡ some (v, rest)
unfolding get_next_item valid_length
get_next_item-pack p codec v rest fits =
    let (low, high) = codec.length_pack v fits in
    let size = codec.size_length_pack v rest fits in
    let low' : leb p.min_length (length (p.pack v)) ≡ true = ground arith in
    let high' : leb (length (p.pack v)) p.max_length ≡ true = ground arith in
    let number : p.unpack (p.pack v) ≡ v =
      ap p.unpack (sym (append-nil (p.pack v))) ∙ codec.unpack_pack v [] fits in
    rw (size, low', high', take-append (p.pack v) rest, drop-append (p.pack v) rest, number) refl

-- Where there are no tags nothing is taken off, and the tag is 0.
pub get_next_item-absent : (bytes : List ℕ) → get_next_item absent bytes ≡ some (0, bytes)
unfolding get_next_item valid_length Absent.size_length Absent.unpack
get_next_item-absent bytes = refl

take_more : (xs ys : List ℕ) (n : ℕ) → take (length xs + n) (xs ++ ys) ≡ xs ++ take n ys
take_more [] ys n = ap (λ k. take k ys) zero_out
  where
    zero_out : 0 + n ≡ n
    zero_out = omega arith
take_more (x ∷ xs) ys n =
    ap (λ k. take k (x ∷ (xs ++ ys))) suc_out ∙ ap (λ t. x ∷ t) (take_more xs ys n)
  where
    suc_out : suc (length xs) + n ≡ suc (length xs + n)
    suc_out = omega arith

-- A slice of a size from the front of some bytes on, which may reach past them.
unfoldable pub slice_reply : ℕ → List ℕ → ℕ → Reply
slice_reply tag rest n =
    if leb n (length rest)
    then on_message_ready tag (take n rest)
    else on_message_past tag rest (n - length rest)

-- The reply to a payload with its checksum behind it, when the slice takes as many bytes of the
-- checksum as the tag has.
unfoldable pub payload_reply : ℕ → List ℕ → List ℕ → ℕ → Reply
payload_reply tag payload sum tag_length =
    if leb tag_length (length sum)
    then on_message_ready tag (payload ++ take tag_length sum)
    else on_message_past tag (payload ++ sum) (tag_length - length sum)

-- With no tag the slice is the payload.
pub untagged-payload_reply :
    (tag : ℕ) (payload sum : List ℕ)
    → payload_reply tag payload sum 0 ≡ on_message_ready tag payload
unfolding payload_reply
untagged-payload_reply tag payload sum =
    let test : leb 0 (length sum) ≡ true = ground arith in
    rw test (ap (λ t. on_message_ready tag t) (append-nil payload))

slice_reply-payload :
    (tag : ℕ) (payload sum : List ℕ) (k n : ℕ)
    → n ≡ length payload + k
    → slice_reply tag (payload ++ sum) n ≡ payload_reply tag payload sum k
unfolding slice_reply payload_reply
slice_reply-payload tag payload sum k n size =
    let all : length (payload ++ sum) ≡ length payload + length sum = length-append payload sum in
    elim (Bool-cases (leb k (length sum))) [
      | inl e ↦
          let test : leb n (length (payload ++ sum)) ≡ true = ground (arith, all, size, e) in
          rw (e, test)
            (ap (λ t. on_message_ready tag t)
              (ap (λ j. take j (payload ++ sum)) size ∙ take_more payload sum k))
      | inr e ↦
          let test : leb n (length (payload ++ sum)) ≡ false = ground (arith, all, size, e) in
          rw (e, test) (ap (λ j. on_message_past tag (payload ++ sum) j) (omega (arith, all, size)))
    ]

back : (k n : ℕ) → leb k n ≡ true → n - (n - k) ≡ k
back k n enough = ground arith

module _ (tag_policy : Policy) (hash : Hasher) (unpack_message : List ℕ → List ℕ) where
  take_tag-found :
      (m rest : List ℕ) (tag : ℕ)
      → get_next_item tag_policy m ≡ some (tag, rest)
      → take_tag tag_policy hash unpack_message m ≡ slice_reply tag rest (length m - hash.length_of)
  unfolding take_tag slice_reply
  take_tag-found m rest tag found = rw (take_tag, found) refl

  on_message-taken :
      (bytes m rest : List ℕ) (tag : ℕ)
      → unpack_message bytes ≡ m
      → leb hash.length_of (length m) ≡ true
      → hash.check (take (length m - hash.length_of) m) (drop (length m - hash.length_of) m) ≡ true
      → get_next_item tag_policy m ≡ some (tag, rest)
      → on_message tag_policy hash unpack_message bytes
        ≡ slice_reply tag rest (length m - hash.length_of)
  unfolding on_message
  on_message-taken bytes m rest tag unpacked enough test found =
      rw (unpacked, enough, test) (take_tag-found m rest tag found)

module _ (tag_policy : Policy) (hash : Hasher) (unpack_message : List ℕ → List ℕ)
    (law : IsHasher hash) where
  -- A message that ends in its own checksum is handed on with its tag. The payload comes with as
  -- many bytes of the checksum behind it as the tag takes, so that with no tags it is the sender's.
  -- Behind a tag that is longer than the checksum the whole checksum comes, and the slice reaches
  -- past the message by as many bytes as the tag is longer.
  pub on_message-signed :
      (bytes tag_bytes payload : List ℕ) (tag : ℕ)
      → unpack_message bytes ≡ (tag_bytes ++ payload) ++ hash.get (tag_bytes ++ payload)
      → ((rest : List ℕ) → get_next_item tag_policy (tag_bytes ++ rest) ≡ some (tag, rest))
      → on_message tag_policy hash unpack_message bytes
        ≡ payload_reply tag payload (hash.get (tag_bytes ++ payload)) (length tag_bytes)
  on_message-signed bytes tag_bytes payload tag unpacked item =
      let body : List ℕ = tag_bytes ++ payload in
      let sum : List ℕ = hash.get body in
      let sizes : length (body ++ sum) ≡ length body + hash.length_of =
        length-append body sum ∙ ap (λ n. length body + n) (law.length_get body) in
      let cut : length (body ++ sum) - hash.length_of ≡ length body = omega (arith, sizes) in
      let enough : leb hash.length_of (length (body ++ sum)) ≡ true = ground arith in
      let whole : length (body ++ sum) - hash.length_of ≡ length payload + length tag_bytes =
        omega (arith, cut, length-append tag_bytes payload) in
      let test : hash.check (take (length (body ++ sum) - hash.length_of) (body ++ sum))
            (drop (length (body ++ sum) - hash.length_of) (body ++ sum))
          ≡ true =
        rw (cut, take-append body sum, drop-append body sum) (law.check_get body) in
      let found : get_next_item tag_policy (body ++ sum) ≡ some (tag, payload ++ sum) =
        ap (λ t. get_next_item tag_policy t) (append_assoc tag_bytes payload sum)
        ∙ item (payload ++ sum) in
      on_message-taken tag_policy hash unpack_message bytes (body ++ sum) (payload ++ sum) tag
        unpacked enough test found
      ∙ slice_reply-payload tag payload sum (length tag_bytes)
          (length (body ++ sum) - hash.length_of) whole

  -- With a lawful checksum: a message that is shorter than one, or does not end in the checksum of what stands
  -- before it, is not handed on, and the transport is closed.
  pub on_message-refused :
      (bytes : List ℕ)
      → (length (unpack_message bytes) < hash.length_of)
        ⊎ (drop (length (unpack_message bytes) - hash.length_of) (unpack_message bytes)
            ≢ hash.get
                (take (length (unpack_message bytes) - hash.length_of) (unpack_message bytes)))
      → closes_transport (on_message tag_policy hash unpack_message bytes) ≡ true
  unfolding on_message closes_transport
  on_message-refused bytes (inl short) =
      let test : leb hash.length_of (length (unpack_message bytes)) ≡ false = ground arith in
      rw test refl
  on_message-refused bytes (inr wrong) =
      let m : List ℕ = unpack_message bytes in
      let cut : ℕ = length m - hash.length_of in
      elim (Bool-cases (leb hash.length_of (length m))) [
        | inr short ↦ rw short refl
        | inl enough ↦ elim (Bool-cases (hash.check (take cut m) (drop cut m))) [
          | inr bad ↦ rw (enough, bad) refl
          | inl good ↦
              let tail : length (drop cut m) ≡ hash.length_of =
                length-drop cut m ∙ back hash.length_of (length m) enough in
              absurd (wrong (law.get_of_check (take cut m) (drop cut m) tail good))
        ]
      ]
