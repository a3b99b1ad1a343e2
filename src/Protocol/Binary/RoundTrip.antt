-- ===== src/Protocol/Binary/RoundTrip.antt =====
-- From the sender's buffer over the stream and the message delegate to `on_message_ready`: the
-- protocol without tags, whose `unpack_message` leaves a message as it is.
use dep_srpc.Base.{ℕ, ◌+◌, ◌^◌, ◌≤◌, ◌<◌, ◌≡◌, refl, ap, sym, ◌∙◌, arith, some, All}
use dep_srpc.Base.{
  List, [], ◌∷◌, ◌++◌, length, take, drop, flatten, replicate, append_assoc, length-append,
  take_all,
}
use mathlib.Core.Path.{subst}
use dep_srpc.SizePack.Policy.{Policy, IsPrefix, IsCodec}
use dep_srpc.SizePack.Absent.{absent}
use dep_srpc.Hash.Hasher.{Hasher, IsHasher}
use dep_srpc.Delegate.Message
use dep_srpc.Delegate.Message.{messages, on_data_all}
use dep_srpc.Delegate.Message.Frames.{frames, IsSendable}
use dep_srpc.Delegate.Message.Deliveries.{on_data_all-frames}
use dep_srpc.Protocol.Binary.{
  Binary, Reply, on_message_ready, validate_length, on_message, Slice, slice_bytes,
  insert_size_prefix,
}
use dep_srpc.Protocol.Binary.Receive.{
  on_message-signed, get_next_item-absent, untagged-payload_reply,
}
use dep_srpc.Protocol.Binary.Send.{insert_size_prefix-slice, drop_zeros, length-replicate}

-- An `unpack_message` that leaves the slice as it is.
abbrev pub keep : List ℕ → List ℕ
keep bytes = bytes

-- A payload with its checksum behind it.
unfoldable pub signed : Hasher → List ℕ → List ℕ
signed hash payload = payload ++ hash.get payload

-- A message in a buffer that has `room` bytes in front of it, with its size put there.
unfoldable pub sent : Policy → ℕ → List ℕ → List ℕ
sent p room m =
    let (out, t) =
      insert_size_prefix p (replicate room 0 ++ m) (record { start = room; size = length m }) in
    slice_bytes out t

unfoldable pub sent_all : Policy → Hasher → ℕ → List (List ℕ) → List ℕ
sent_all p hash room [] = []
sent_all p hash room (x ∷ xs) = sent p room (signed hash x) ++ sent_all p hash room xs

unfoldable pub signed_all : Hasher → List (List ℕ) → List (List ℕ)
signed_all hash [] = []
signed_all hash (x ∷ xs) = signed hash x ∷ signed_all hash xs

-- What the protocol does with the messages that the delegate delivers, and with payloads.
unfoldable pub replies : Hasher → List (List ℕ) → List Reply
replies hash [] = []
replies hash (m ∷ ms) = on_message absent hash keep m ∷ replies hash ms

unfoldable pub all_ready : List (List ℕ) → List Reply
all_ready [] = []
all_ready (x ∷ xs) = on_message_ready 0 x ∷ all_ready xs

-- The size of the signed payload can be packed, in as many bytes as `packed_length` says, and is no
-- more than the receiver takes; the frame's size is a number of 64 bits.
abbrev pub IsPayload : Policy → Hasher → Binary → List ℕ → Type 0
IsPayload p hash b x =
    (length x + hash.length_of < p.limit)
    × (length x + hash.length_of ≤ b.max_length)
    × (length (p.pack (length x + hash.length_of)) ≡ p.packed_length (length x + hash.length_of))
    × (length (p.pack (length x + hash.length_of)) + (length x + hash.length_of) < 2 ^ 64)

plus_zero : (n : ℕ) → n ≡ n + 0
plus_zero n = omega arith

front_dropped : (room : ℕ) (m : List ℕ) → drop room (replicate room 0 ++ m) ≡ m
front_dropped room m =
    ap (λ k. drop k (replicate room 0 ++ m)) (plus_zero room) ∙ drop_zeros room 0 m

sent-frame :
    (p : Policy) (room : ℕ) (m : List ℕ)
    → length (p.pack (length m)) ≡ p.packed_length (length m)
    → sent p room m ≡ p.pack (length m) ++ m
unfolding sent slice_bytes
sent-frame p room m measured =
    let buf : List ℕ = replicate room 0 ++ m in
    let place : Slice = record { start = room; size = length m } in
    let inside : room + length m ≤ length buf =
      omega (arith, length-append (replicate room 0) m, length-replicate room) in
    let body : take (length m) (drop room buf) ≡ m =
      ap (λ t. take (length m) t) (front_dropped room m) ∙ take_all (length m) m (omega arith) in
    insert_size_prefix-slice p buf place measured inside ∙ ap (λ t. p.pack (length m) ++ t) body

module _ (hash : Hasher) (law : IsHasher hash) where
  pub on_message-signed_ready :
      (x : List ℕ) → on_message absent hash keep (signed hash x) ≡ on_message_ready 0 x
  unfolding signed
  on_message-signed_ready x =
      on_message-signed absent hash keep law (signed hash x) [] x 0 refl get_next_item-absent
      ∙ untagged-payload_reply 0 x (hash.get x)

module _ (p : Policy) (hash : Hasher) (law : IsHasher hash) (b : Binary) where
  signed-length : (x : List ℕ) → length (signed hash x) ≡ length x + hash.length_of
  unfolding signed
  signed-length x = length-append x (hash.get x) ∙ ap (λ n. length x + n) (law.length_get x)

  signed-IsSendable :
      (x : List ℕ) → IsPayload p hash b x → IsSendable p (validate_length b) (signed hash x)
  unfolding validate_length
  signed-IsSendable x (small, taken, measured, short) = (
    omega (arith, signed-length x, small),
    ground (arith, signed-length x, taken),
    subst (λ n. length (p.pack n) + n < 2 ^ 64) (sym (signed-length x)) short,
  )

  pub signed_all-IsSendable :
      (xs : List (List ℕ))
      → All (IsPayload p hash b) xs
      → All (IsSendable p (validate_length b)) (signed_all hash xs)
  unfolding signed_all
  signed_all-IsSendable [] h = tt
  signed_all-IsSendable (x ∷ xs) (h, hs) = (signed-IsSendable x h, signed_all-IsSendable xs hs)

  pub sent_all-frames :
      (room : ℕ) (xs : List (List ℕ))
      → All (IsPayload p hash b) xs
      → sent_all p hash room xs ≡ frames p (signed_all hash xs)
  unfolding sent_all frames signed_all
  sent_all-frames room [] h = refl
  sent_all-frames room (x ∷ xs) ((small, taken, measured, short), hs) =
      let m : List ℕ = signed hash x in
      let size : length (p.pack (length m)) ≡ p.packed_length (length m) =
        subst (λ n. length (p.pack n) ≡ p.packed_length n) (sym (signed-length x)) measured in
      ap (λ t. t ++ sent_all p hash room xs) (sent-frame p room m size)
      ∙ append_assoc (p.pack (length m)) m (sent_all p hash room xs)
      ∙ ap (λ t. p.pack (length m) ++ (m ++ t)) (sent_all-frames room xs hs)

  replies-signed_all : (xs : List (List ℕ)) → replies hash (signed_all hash xs) ≡ all_ready xs
  unfolding replies signed_all all_ready
  replies-signed_all [] = refl
  replies-signed_all (x ∷ xs) =
      ap (λ r. r ∷ replies hash (signed_all hash xs)) (on_message-signed_ready hash law x)
      ∙ ap (λ rs. on_message_ready 0 x ∷ rs) (replies-signed_all xs)

  -- Signed payloads of sizes that can be packed and are taken, in frames of sizes of 64 bits, each
  -- prefixed in a buffer with any number of bytes in front, written one after the other and cut by
  -- the transport in any way: the protocol hands on exactly these payloads, in order, and no byte
  -- is left.
  pub on_data_all-sent_all :
      (prefix : IsPrefix p) (codec : IsCodec p) (room : ℕ) (xs chunks : List (List ℕ))
      → All (IsPayload p hash b) xs
      → flatten chunks ≡ sent_all p hash room xs
      → (es : List Message.Event) × (on_data_all p (validate_length b) [] chunks ≡ some ([], es))
        × (replies hash (messages es) ≡ all_ready xs)
  on_data_all-sent_all prefix codec room xs chunks h whole =
      let (es, e, same) =
        on_data_all-frames p (validate_length b) prefix codec (signed_all hash xs) chunks
          (signed_all-IsSendable xs h) (whole ∙ sent_all-frames room xs h) in
      (es, e, ap (λ ms. replies hash ms) same ∙ replies-signed_all xs)
