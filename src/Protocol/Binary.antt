-- ===== src/Protocol/Binary.antt =====
-- include/srpc/common/protocol/binary.h. `on_message` gets the bytes that the message delegate cut
-- off; the virtual `unpack_message` is an argument, the slice that it leaves. Its result, the call
-- of `on_message_ready` or of `on_error`, is a reply. A buffer is the list of its bytes, and a
-- slice of it a start and a size.
pub mod Errors
pub mod Receive
pub mod RoundTrip
pub mod Send
pub mod Tests
use dep_srpc.Base.{ℕ, ◌+◌, ◌-◌, Bool, true, false, leb, not, if◌then◌else◌, Option, none, some}
use dep_srpc.Base.{List, [], ◌∷◌, ◌++◌, length, take, drop, replicate}
use dep_srpc.SizePack.Policy.{Policy, valid_length}
use dep_srpc.Hash.Hasher.{Hasher}

-- The slice of `on_message_past` starts with the bytes that it has, and reaches some bytes past the
-- end of the message; what stands there is not known.
pub data Reply : Type 0 where
  on_message_ready : ℕ → List ℕ → Reply
  on_message_past : ℕ → List ℕ → ℕ → Reply
  bad_checksum bad_length bad_tag : Reply

-- The member that bounds a message; `resize_buffer` of the transport gets it too.
pub record Binary : Type 0 where
  pub max_length : ℕ

unfoldable pub set_max_length : ℕ → Binary → Binary
set_max_length len b = record b { max_length = len }

unfoldable pub validate_length : Binary → ℕ → Bool
validate_length b len = leb len b.max_length

-- What `on_error`, `on_read_error` and `on_write_error` do: they close the transport.
unfoldable pub closes_transport : Reply → Bool
closes_transport (on_message_ready tag payload) = false
closes_transport (on_message_past tag payload behind) = false
closes_transport bad_checksum = true
closes_transport bad_length = true
closes_transport bad_tag = true

-- The item at the front, and the bytes behind it.
unfoldable pub get_next_item : Policy → List ℕ → Option (ℕ × List ℕ)
get_next_item p bytes =
    let len = p.size_length bytes in
    if valid_length p len then some (p.unpack (take len bytes), drop len bytes) else none

module _ (tag_policy : Policy) (hash : Hasher) (unpack_message : List ℕ → List ℕ) where
  -- The part behind the checksum's test: `mess_len` is that of the whole message, and the slice
  -- that is handed on has `mess_len - hash_size` bytes from the end of the tag on, whether the
  -- message has them or not.
  unfoldable pub take_tag : List ℕ → Reply
  take_tag m = elim (get_next_item tag_policy m) [
    | none ↦ bad_tag
    | some (tag, rest) ↦
        let n = length m - hash.length_of in
        if leb n (length rest)
        then on_message_ready tag (take n rest)
        else on_message_past tag rest (n - length rest)
  ]

  unfoldable pub on_message : List ℕ → Reply
  on_message bytes =
      let m = unpack_message bytes in
      if leb hash.length_of (length m)
      then if not
          (hash.check (take (length m - hash.length_of) m) (drop (length m - hash.length_of) m))
        then bad_checksum
        else take_tag m
      else bad_length

-- `buffer_slice` of a buffer.
pub record Slice : Type 0 where
  pub start : ℕ
  pub size : ℕ

unfoldable pub slice_bytes : List ℕ → Slice → List ℕ
slice_bytes buf s = take s.size (drop s.start buf)

-- Bytes written over those of the buffer from a place on.
unfoldable pub write_at : List ℕ → ℕ → List ℕ → List ℕ
write_at buf i bs = take i buf ++ (bs ++ drop (i + length bs) buf)

unfoldable pub insert_prefix : List ℕ → Slice → List ℕ → List ℕ × Slice
insert_prefix buf dst src =
    let cap = dst.start in
    let pak = length src in
    if leb pak cap
    then (write_at buf (cap - pak) src, record { start = cap - pak; size = length src + pak })
    else (src ++ buf, record { start = 0; size = length src + pak })

unfoldable pub insert_size_prefix : Policy → List ℕ → Slice → List ℕ × Slice
insert_size_prefix p buf slice =
    let cap = slice.start in
    let pak = p.packed_length slice.size in
    if leb pak cap
    then (
      write_at buf (cap - pak) (p.pack slice.size),
      record { start = cap - pak; size = slice.size + pak },
    )
    else (
      write_at (replicate (pak - cap) 0 ++ buf) 0 (p.pack slice.size),
      record { start = 0; size = slice.size + pak },
    )
