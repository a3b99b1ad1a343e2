-- ===== src/Protocol/Binary/Tests.antt =====
-- Concrete runs of the protocol, and its theorems at concrete messages.
use dep_srpc.Base.{ℕ, ◌≡◌, refl, arith, true, inr, [], ◌∷◌, ◌++◌, length, List}
use dep_srpc.SizePack.Varint.{varint}
use dep_srpc.SizePack.Varint.Laws.{packed_length-pack}
use dep_srpc.SizePack.Fixint.{fixint}
use dep_srpc.SizePack.Fixint.Laws.{fixint-IsCodec}
use dep_srpc.Protocol.Binary.{Binary}
use dep_srpc.Protocol.Binary.RoundTrip.{keep, sent_all}
use dep_srpc.Hash.Crc32.{crc32, get, crc_value, update_all, get_value}
use dep_srpc.Hash.Crc32.Table.{crc_table}
use dep_srpc.Hash.Crc32.Laws.{crc32-IsHasher}
use dep_srpc.Protocol.Binary.{
  closes_transport, on_message_past, on_message, Slice, slice_bytes, insert_prefix, write_at,
  insert_size_prefix,
}
use dep_srpc.Protocol.Binary.Receive.{
  on_message-signed, on_message-refused, payload_reply, get_next_item-pack,
}
use dep_srpc.Protocol.Binary.{bad_checksum}
use dep_srpc.Protocol.Binary.Errors.{on_message-one_byte}
use dep_srpc.Protocol.Binary.Send.{insert_size_prefix-slice}

abbrev tagged : List ℕ
tagged = (fixint 1).pack 9 ++ 1 ∷ 2 ∷ []

on_message-signed_example :
    on_message (fixint 1) crc32 keep (tagged ++ crc32.get tagged)
    ≡ payload_reply 9 (1 ∷ 2 ∷ []) (crc32.get tagged) (length ((fixint 1).pack 9))
on_message-signed_example =
    on_message-signed (fixint 1) crc32 keep crc32-IsHasher (tagged ++ crc32.get tagged)
      ((fixint 1).pack 9) (1 ∷ 2 ∷ []) 9 refl
      (λ rest. get_next_item-pack (fixint 1) (fixint-IsCodec 1) 9 rest (omega arith))

-- Four bytes that are not the checksum of the empty message.
on_message-refused_example :
    closes_transport (on_message (fixint 1) crc32 keep (0 ∷ 0 ∷ 0 ∷ 1 ∷ [])) ≡ true
unfolding get crc_value update_all get_value crc_table
on_message-refused_example =
    on_message-refused (fixint 1) crc32 keep crc32-IsHasher (0 ∷ 0 ∷ 0 ∷ 1 ∷ [])
      (inr (λ e. absurd (ground (arith, e))))

-- Behind a tag of six bytes the slice reaches two bytes past the message.
long_tag :
    payload_reply 9 (1 ∷ 2 ∷ []) (5 ∷ 6 ∷ 7 ∷ 8 ∷ []) 6
    ≡ on_message_past 9 (1 ∷ 2 ∷ 5 ∷ 6 ∷ 7 ∷ 8 ∷ []) 2
unfolding payload_reply
long_tag = refl

abbrev three : List ℕ
three = 5 ∷ 6 ∷ 7 ∷ []

abbrev all_three : Slice
all_three = record { start = 0; size = 3 }

insert_size_prefix-slice_example :
    let (out, t) = insert_size_prefix (varint 32) three all_three in
    slice_bytes out t ≡ (varint 32).pack 3 ++ slice_bytes three all_three
insert_size_prefix-slice_example =
    insert_size_prefix-slice (varint 32) three all_three (packed_length-pack 3) (omega arith)

-- The slice that `insert_prefix` returns has twice the size of the prefix, whatever the slice's.
insert_prefix_size :
    insert_prefix (0 ∷ 0 ∷ 5 ∷ 6 ∷ 7 ∷ []) (record { start = 2; size = 3 }) (1 ∷ 2 ∷ [])
    ≡ (1 ∷ 2 ∷ 5 ∷ 6 ∷ 7 ∷ [], record { start = 0; size = 4 })
unfolding insert_prefix write_at
insert_prefix_size = refl

abbrev receiver : Binary
receiver = record { max_length = 100 }

abbrev wire : List ℕ
wire = sent_all (fixint 4) crc32 2 ((1 ∷ 2 ∷ []) ∷ (3 ∷ []) ∷ [])

on_message-one_byte_example :
    on_message
      (fixint 1)
      crc32
      keep
      (((1 ∷ []) ++ 3 ∷ 4 ∷ []) ++ crc32.get ((1 ∷ []) ++ 2 ∷ 4 ∷ []))
    ≡ bad_checksum
on_message-one_byte_example =
    on_message-one_byte (fixint 1) keep
      (((1 ∷ []) ++ 3 ∷ 4 ∷ []) ++ crc32.get ((1 ∷ []) ++ 2 ∷ 4 ∷ [])) (1 ∷ []) 2 3 (4 ∷ [])
      (omega arith) (omega arith) (λ e. absurd (omega (arith, e))) (omega arith, tt) refl
