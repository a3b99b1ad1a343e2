-- ===== src/Session.antt =====
-- One side of a connection that receives: the reading and closing of transport/async/base.h and
-- stream.h, the buffers of transport/async/tcp.h, the message delegate and protocol/binary.h
-- together, all under include/srpc/common. The transport is alive while its handlers run. The
-- delegate's `on_need_read` starts the transport's next read, and what goes wrong posts a close.
-- The socket's completions and the posted closes are operations, run one at a time on the strand. A
-- receive brings no more bytes than the buffer holds, which the socket sees to.
pub mod Receiving
pub mod Closing
pub mod Pipeline
pub mod Tests
use mathlib.Core.Option
use dep_srpc.Base.{ℕ, zero, suc, ◌+◌, ◌-◌, Bool, true, false, if◌then◌else◌, Option, none, some}
use dep_srpc.Base.{List, [], ◌∷◌, ◌++◌}
use dep_srpc.SizePack.Policy.{Policy}
use dep_srpc.Hash.Hasher.{Hasher}
use dep_srpc.Delegate.Message
use dep_srpc.Protocol.Binary.{
  Binary, Reply, on_message_ready, on_message_past, bad_checksum, bad_length, bad_tag,
  validate_length, on_message,
}

-- The members: the protocol's, the delegate's bytes, the size of `read_buffer_`, the reads that the
-- socket has and the closes that are posted, and whether the transport is active.
pub record Session : Type 0 where
  pub binary : Binary
  pub unpacked : List ℕ
  pub read_buffer : ℕ
  pub receiving : ℕ
  pub closes : ℕ
  pub active : Bool

pub data Event : Type 0 where
  async_read_some : ℕ → Event
  handed_on : ℕ → List ℕ → Event
  handed_past : ℕ → List ℕ → ℕ → Event
  send_buffer_size : ℕ → Event
  on_close socket_close : Event

pub data Op : Type 0 where
  assigns reads runs_close write_fails : Op
  received : Bool → List ℕ → Op

-- `set_buffers` of the TCP transport: both options that it sets are the size of the send buffer.
unfoldable pub set_buffers : ℕ → List Event
set_buffers len = send_buffer_size len ∷ send_buffer_size len ∷ []

-- `assign_transport`, and what it calls of the transport, `resize_buffer`.
unfoldable pub resize_buffer : ℕ → Session → Session × List Event
resize_buffer len s = (record s { read_buffer = len }, set_buffers len)

unfoldable pub assign_transport : Session → Session × List Event
assign_transport s = resize_buffer s.binary.max_length s

-- `call_reader`, which is `start_read_impl`.
unfoldable pub start_read : Session → Session × List Event
start_read s = (record s { receiving = suc s.receiving }, async_read_some s.read_buffer ∷ [])

-- `close`: the posted handler is `close_impl`.
unfoldable pub close : Session → Session
close s = record s { closes = suc s.closes }

unfoldable pub close_unsafe : Session → Session × List Event
close_unsafe s =
    if s.active then (record s { active = false }, on_close ∷ socket_close ∷ []) else (s, [])

unfoldable pub close_impl : Session → Session × List Event
close_impl s = elim s.closes [ zero ↦ (s, []) | suc n ↦ close_unsafe (record s { closes = n }) ]

-- What a reply does: `on_message_ready`, or `on_error`.
unfoldable pub hand_on : Reply → Session → Session × List Event
hand_on (on_message_ready tag payload) s = (s, handed_on tag payload ∷ [])
hand_on (on_message_past tag payload behind) s = (s, handed_past tag payload behind ∷ [])
hand_on bad_checksum s = (close s, [])
hand_on bad_length s = (close s, [])
hand_on bad_tag s = (close s, [])

module _ (p tag_policy : Policy) (hash : Hasher) (unpack_message : List ℕ → List ℕ) where
  -- The virtual functions that the delegate calls.
  unfoldable pub respond : Message.Event → Session → Session × List Event
  respond (Message.message m) s = hand_on (on_message tag_policy hash unpack_message m) s
  respond Message.error s = (close s, [])
  respond Message.need_read s = start_read s

  unfoldable pub respond_all : List Message.Event → Session → Session × List Event
  respond_all [] s = (s, [])
  respond_all (e ∷ es) s =
      let (s1, fs) = respond e s in let (s2, gs) = respond_all es s1 in (s2, fs ++ gs)

  -- `read_handler`; no result means that the delegate's loop does not end.
  unfoldable pub read_handler : Bool → List ℕ → Session → Option (Session × List Event)
  read_handler true bytes s = some (close s, [])
  read_handler false bytes s =
      Option.map (λ (left, es). respond_all es (record s { unpacked = left }))
        (Message.on_data p (validate_length s.binary) s.unpacked bytes)

  unfoldable pub step : Op → Session → Option (Session × List Event)
  step assigns s = some (assign_transport s)
  step reads s = some (start_read s)
  step runs_close s = some (close_impl s)
  step write_fails s = some (close s, [])
  step (received error bytes) s = elim s.receiving [
    | zero ↦ some (s, [])
    | suc n ↦ read_handler error bytes (record s { receiving = n })
  ]

  unfoldable pub run : List Op → Session → Option (Session × List Event)
  run [] s = some (s, [])
  run (op ∷ ops) s = elim (step op s) [
    | none ↦ none
    | some (s1, es) ↦ Option.map (λ (s2, more). (s2, es ++ more)) (run ops s1)
  ]
