-- ===== src/Delegate/Message.antt =====
-- include/srpc/common/transport/delegates/message.h: the delegate that cuts a byte stream into
-- length-prefixed messages. `unpacked_` is the state; a call returns its new value with the calls
-- that it makes of the virtual functions, in order. `validate_length` is the derived class's test.
-- A buffer has less than 2 ^ 64 bytes.
pub mod Drain
pub mod Chunks
pub mod Clean
pub mod Deliveries
pub mod Frames
pub mod Stalls
mod Tests
use mathlib.Core.Option
use dep_srpc.Base.{ℕ, zero, suc, ◌+◌, ◌%◌, ◌^◌, Bool, true, false, ◌&&◌, not, Option, none, some}
use dep_srpc.Base.{List, [], ◌∷◌, ◌++◌, length, take, drop, ltb, leb, ◌==◌, if◌then◌else◌}
use dep_srpc.SizePack.Policy.{Policy}

pub data Event : Type 0 where
  message : List ℕ → Event
  error need_read : Event

-- The messages among the events.
unfoldable pub messages : List Event → List (List ℕ)
messages [] = []
messages (message m ∷ es) = m ∷ messages es
messages (error ∷ es) = messages es
messages (need_read ∷ es) = messages es

-- What one round of the loop does with the bytes: deliver a message and keep the rest, report an
-- overlong prefix, leave the loop, or read behind the bytes.
pub data Round : Type 0 where
  deliver : List ℕ → List ℕ → Round
  reject wait overrun : Round

module _ (p : Policy) (validate_length : ℕ → Bool) where
  -- `chck`, without its call of `on_error`, which `round` answers by `reject`.
  unfoldable pub chck : ℕ → ℕ → Bool
  chck size len = not (ltb p.max_length size && ltb len p.min_length)

  -- The branch inside the loop, for a complete prefix of `len` bytes and the number in it. The sum
  -- is a `size_t`: where it wraps around and the test is passed by what is left of it, the message
  -- is longer than the bytes there are.
  unfoldable pub cut : ℕ → ℕ → List ℕ → Round
  cut len size unpacked =
      if not (validate_length size)
      then wait
      else if leb (size + len) (length unpacked)
      then deliver (take size (drop len unpacked)) (drop (len + size) unpacked)
      else if leb ((size + len) % 2 ^ 64) (length unpacked)
      then overrun
      else wait

  -- The loop's condition and body.
  unfoldable pub round : List ℕ → Round
  unfolding chck cut
  round unpacked =
      let len = p.size_length unpacked in
      if length unpacked == 0
      then wait
      else if not (chck (length unpacked) len)
      then reject
      else if leb p.min_length len
      then cut len (p.unpack unpacked) unpacked
      else wait

  -- The loop on fuel; `none` means that the fuel ran out, or that the loop read behind its bytes.
  unfoldable pub drain : ℕ → List ℕ → Option (List ℕ × List Event)
  drain zero unpacked = none
  drain (suc fuel) unpacked = elim (round unpacked) [
    | deliver m rest ↦ Option.map (λ (left, es). (left, message m ∷ es)) (drain fuel rest)
    | reject ↦ some (unpacked, error ∷ [])
    | wait ↦ some (unpacked, [])
    | overrun ↦ none
  ]

  -- Each round takes a byte at least, so one round more than there are bytes is enough.
  unfoldable pub on_data : List ℕ → List ℕ → Option (List ℕ × List Event)
  on_data unpacked bytes =
      let all = unpacked ++ bytes in
      Option.map (λ (left, es). (left, es ++ need_read ∷ [])) (drain (length all + 1) all)

  -- Several calls in a row, as the transport makes them.
  unfoldable pub on_data_all : List ℕ → List (List ℕ) → Option (List ℕ × List Event)
  on_data_all unpacked [] = some (unpacked, [])
  on_data_all unpacked (bytes ∷ chunks) = elim (on_data unpacked bytes) [
    | none ↦ none
    | some (left, es) ↦ Option.map (λ (left', es'). (left', es ++ es')) (on_data_all left chunks)
  ]
