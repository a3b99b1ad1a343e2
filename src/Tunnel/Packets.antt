-- ===== src/Tunnel/Packets.antt =====
-- tst/options.h, client.cpp and server.cpp: how the packets of a device go over a transport. Both
-- sides pack what their device reads behind a tag, and write to their device what comes with this
-- tag.
pub mod Tests
use dep_srpc.Base.{
  ℕ, zero, suc, ◌+◌, ◌-◌, ◌*◌, ◌^◌, ◌<◌, ◌≡◌, refl, ap, sym, ◌∙◌, arith, Bool, true, false, ◌==◌,
  if◌then◌else◌, Option, none, some, All, List, [], ◌∷◌, ◌++◌, length, take, drop, flatten,
  replicate, append_assoc,
}
use dep_srpc.SizePack.Policy.{Policy, IsPrefix, IsCodec}
use dep_srpc.SizePack.Varint.{varint}
use dep_srpc.SizePack.Varint.Laws.{varint-IsPrefix, varint-IsCodec, packed_length-pack}
use dep_srpc.Delegate.Message
use dep_srpc.Delegate.Message.{messages, on_data_all}
use dep_srpc.Delegate.Message.Frames.{frames, IsSendable}
use dep_srpc.Delegate.Message.Deliveries.{on_data_all-frames}
use dep_srpc.Protocol.Binary.{write_at}
use dep_srpc.Protocol.Binary.Send.{drop_zeros}

-- `enum tag_type`.
abbrev pub tag_data : ℕ
tag_data = 0

abbrev pub tag_command : ℕ
tag_command = 1

-- `message_packer::pack`: room for the size is inserted in front, and the size put there.
unfoldable pub pack : Policy → List ℕ → List ℕ
pack p mess =
    write_at (replicate (p.packed_length (length mess)) 0 ++ mess) 0 (p.pack (length mess))

-- What `on_read` of the client's device and `write_to_clients` of the server write.
unfoldable pub on_read : Policy → List ℕ → List ℕ
on_read p bytes = pack p (tag_data ∷ bytes)

-- What `on_connect` of the client writes first.
unfoldable pub on_connect : Policy → List ℕ
on_connect p = pack p (tag_command ∷ [])

-- What `on_message` of both sides does; `message[ 0 ]` of an empty message is outside it.
pub data Written : Type 0 where
  to_device : List ℕ → Written
  ignored outside : Written

unfoldable pub on_message : List ℕ → Written
on_message [] = outside
on_message (tag ∷ rest) = if tag == tag_data then to_device rest else ignored

-- `validate_length` of both sides.
unfoldable pub validate_length : ℕ → Bool
validate_length len = true

unfoldable pub on_messages : List (List ℕ) → List Written
on_messages [] = []
on_messages (m ∷ ms) = on_message m ∷ on_messages ms

-- The packets that a device reads, as they are written to a transport one after the other.
unfoldable pub read_all : Policy → List (List ℕ) → List ℕ
read_all p [] = []
read_all p (x ∷ xs) = on_read p x ++ read_all p xs

-- What the client or the server writes to a transport.
unfoldable pub sent_by : Policy → Bool → List (List ℕ) → List ℕ
sent_by p true xs = on_connect p ++ read_all p xs
sent_by p false xs = read_all p xs

unfoldable pub all_written : List (List ℕ) → List Written
all_written [] = []
all_written (x ∷ xs) = to_device x ∷ all_written xs

unfoldable pub written_for : Bool → List (List ℕ) → List Written
written_for true xs = ignored ∷ all_written xs
written_for false xs = all_written xs

unfoldable pub tagged : List (List ℕ) → List (List ℕ)
tagged [] = []
tagged (x ∷ xs) = (tag_data ∷ x) ∷ tagged xs

unfoldable pub framed_by : Bool → List (List ℕ) → List (List ℕ)
framed_by true xs = (tag_command ∷ []) ∷ tagged xs
framed_by false xs = tagged xs

-- `my_size_policy`.
abbrev pub my_size_policy : Policy
my_size_policy = varint 32

pack-frame :
    (p : Policy) (m : List ℕ)
    → length (p.pack (length m)) ≡ p.packed_length (length m)
    → pack p m ≡ p.pack (length m) ++ m
unfolding pack write_at
pack-frame p m measured =
    let zeros : ℕ → List ℕ = λ n. replicate n 0 ++ m in
    let place : 0 + length (p.pack (length m)) ≡ p.packed_length (length m) + 0 =
      omega (arith, measured) in
    ap (λ t. p.pack (length m) ++ t)
      (ap (λ k. drop k (zeros (p.packed_length (length m)))) place
        ∙ drop_zeros (p.packed_length (length m)) 0 m)

on_messages-tagged : (xs : List (List ℕ)) → on_messages (tagged xs) ≡ all_written xs
unfolding on_messages tagged all_written on_message
on_messages-tagged [] = refl
on_messages-tagged (x ∷ xs) = ap (λ t. to_device x ∷ t) (on_messages-tagged xs)

measured : (n : ℕ) → length (my_size_policy.pack (suc n)) ≡ my_size_policy.packed_length (suc n)
measured n =
    let some_byte : (suc n == 0) ≡ false = ground arith in
    packed_length-pack (suc n) ∙ rw some_byte refl

read_all-frames :
    (xs : List (List ℕ)) → read_all my_size_policy xs ≡ frames my_size_policy (tagged xs)
unfolding read_all frames tagged on_read
read_all-frames [] = refl
read_all-frames (x ∷ xs) =
    let m : List ℕ = tag_data ∷ x in
    rw (pack-frame my_size_policy m (measured (length x)), read_all-frames xs)
      (append_assoc (my_size_policy.pack (length m)) m (frames my_size_policy (tagged xs)))

short_frame : (n : ℕ) → n < 2 ^ 32 → length (my_size_policy.pack n) + n < 2 ^ 64
short_frame n h = omega (arith, ((varint-IsCodec 32).length_pack n h).1, h)

tagged-IsSendable :
    (xs : List (List ℕ))
    → All (λ x. length x + 1 < 2 ^ 32) xs
    → All (IsSendable my_size_policy validate_length) (tagged xs)
unfolding tagged validate_length
tagged-IsSendable [] h = tt
tagged-IsSendable (x ∷ xs) (h, hs) =
    let size : suc (length x) < 2 ^ 32 = omega (arith, h) in
    ((size, refl, short_frame (suc (length x)) size), tagged-IsSendable xs hs)

on_messages-framed_by :
    (client : Bool) (xs : List (List ℕ)) → on_messages (framed_by client xs) ≡ written_for client xs
unfolding on_messages framed_by written_for on_message
on_messages-framed_by true xs = ap (λ t. ignored ∷ t) (on_messages-tagged xs)
on_messages-framed_by false xs = on_messages-tagged xs

sent_by-frames :
    (client : Bool) (xs : List (List ℕ))
    → sent_by my_size_policy client xs ≡ frames my_size_policy (framed_by client xs)
unfolding sent_by frames framed_by on_connect
sent_by-frames true xs =
    let m : List ℕ = tag_command ∷ [] in
    rw (pack-frame my_size_policy m (measured 0), read_all-frames xs)
      (append_assoc (my_size_policy.pack (length m)) m (frames my_size_policy (tagged xs)))
sent_by-frames false xs = read_all-frames xs

framed_by-IsSendable :
    (client : Bool) (xs : List (List ℕ))
    → All (λ x. length x + 1 < 2 ^ 32) xs
    → All (IsSendable my_size_policy validate_length) (framed_by client xs)
unfolding framed_by validate_length
framed_by-IsSendable true xs hs =
    ((omega arith, refl, short_frame 1 (omega arith)), tagged-IsSendable xs hs)
framed_by-IsSendable false xs hs = tagged-IsSendable xs hs

-- The packets that the device of the client or of the server reads, each shorter than 2 ^ 32 - 1
-- bytes, are written to a transport one after the other, by the client behind its command. In
-- whatever pieces the other side receives them, it ignores the command, writes exactly these
-- packets to its device, in order, and no byte is left.
pub on_data_all-sent_by :
    (client : Bool) (xs chunks : List (List ℕ))
    → All (λ x. length x + 1 < 2 ^ 32) xs
    → flatten chunks ≡ sent_by my_size_policy client xs
    → (es : List Message.Event) × (on_data_all my_size_policy validate_length [] chunks
        ≡ some ([], es))
      × (on_messages (messages es) ≡ written_for client xs)
on_data_all-sent_by client xs chunks h whole =
    let (es, e, same) =
      on_data_all-frames my_size_policy validate_length (varint-IsPrefix 32) (varint-IsCodec 32)
        (framed_by client xs) chunks (framed_by-IsSendable client xs h)
        (whole ∙ sent_by-frames client xs) in
    (es, e, ap on_messages same ∙ on_messages-framed_by client xs)
