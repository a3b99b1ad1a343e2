-- ===== src/Tunnel/Point.antt =====
-- tst/async-reader.hpp: `point_iface`, the reading and writing of a device. Its handlers run one at
-- a time; the device is outside, and its completions are operations with the error flag and the
-- bytes. A closure is its number. OPT_DISPATCH_READ chooses the strand for the read handler and
-- nothing else.
pub mod Writing
pub mod Tests
use dep_srpc.Base.{
  ℕ, ◌+◌, ◌-◌, ◌*◌, Bool, true, false, ltb, ◌==◌, if◌then◌else◌, Option, none, some, bit_and, List,
  [], ◌∷◌, ◌++◌, length, take, drop,
}

pub record QueueValue : Type 0 where
  pub message_ : List ℕ
  pub success_ : Option ℕ

-- A write that the device has, with the arguments bound into its handler.
pub record Write : Type 0 where
  pub data_ : List ℕ
  pub length_ : ℕ
  pub total : ℕ

-- `success` has its closure and whether there was an error.
pub data Event : Type 0 where
  sent on_read : List ℕ → Event
  success : ℕ → Bool → Event
  write_error read_error async_read_some stream_close : Event

pub record Point : Type 0 where
  pub write_queue : List QueueValue
  pub pending : List Write
  pub reading : ℕ
  pub active : Bool

pub data Op : Type 0 where
  writes : QueueValue → Op
  completes : Bool → ℕ → Op
  reads closes : Op
  received : Bool → List ℕ → Op

abbrev pub opt_transform_message : ℕ
opt_transform_message = 1

unfoldable pub new_point : Point
new_point = record { write_queue = []; pending = []; reading = 0; active = true }

-- `async_write( data, length, total )`.
unfoldable pub async_write_at : List ℕ → ℕ → ℕ → Point → Point
async_write_at data_ length_ total s = record s {
  pending = s.pending ++ record { data_ = data_; length_ = length_; total = total } ∷ [];
}

unfoldable pub success_call : QueueValue → Bool → List Event
success_call top error = elim top.success_ [ none ↦ [] | some k ↦ success k error ∷ [] ]

unfoldable pub close_impl : Point → Point × List Event
close_impl s = if s.active then (record s { active = false }, stream_close ∷ []) else (s, [])

unfoldable pub async_read : Point → Point × List Event
async_read s = (record s { reading = s.reading + 1 }, async_read_some ∷ [])

unfoldable pub read_handler : Bool → List ℕ → Point → Point × List Event
read_handler true bytes s = (s, read_error ∷ [])
read_handler false bytes s = let (s1, es) = async_read s in (s1, on_read bytes ∷ es)

unfoldable pub receive : Bool → List ℕ → Point → Point × List Event
receive error bytes s =
    if s.reading == 0
    then (s, [])
    else read_handler error bytes (record s { reading = s.reading - 1 })

-- `opts`, and the virtual `on_transform_message`.
module _ (opts : ℕ) (on_transform_message : List ℕ → List ℕ) where
  -- `get_message_transform`: whether the message at the front is replaced before it is written.
  unfoldable pub transformed : List ℕ → List ℕ
  transformed message =
      if bit_and opts opt_transform_message == 0 then message else on_transform_message message

  -- `async_write( )` where the queue has a front.
  unfoldable pub async_write : Point → Point
  async_write s = elim s.write_queue [
    | [] ↦ s
    | top ∷ rest ↦
        let m = transformed top.message_ in
        async_write_at m (length m) 0
          (record s { write_queue = record top { message_ = m } ∷ rest })
  ]

  -- For the write `w` that has just left `pending`.
  unfoldable pub write_handler : Bool → ℕ → Write → Point → Point × List Event
  write_handler error bytes w s = elim s.write_queue [
    | [] ↦ (s, [])
    | top ∷ rest ↦
        if error
        then (
          async_write (record s { write_queue = rest }),
          success_call top error ++ write_error ∷ [],
        )
        else if ltb bytes w.length_
        then (
          async_write_at (drop (w.total + bytes) top.message_)
              (length top.message_ - (w.total + bytes)) (w.total + bytes) s,
          [],
        )
        else (async_write (record s { write_queue = rest }), success_call top error)
  ]

  unfoldable pub write_impl : QueueValue → Point → Point
  write_impl data_ s =
      let pushed : Point = record s { write_queue = s.write_queue ++ data_ ∷ [] } in
      elim s.write_queue [ [] ↦ async_write pushed | _ ∷ _ ↦ pushed ]

  -- The completion of the write that the device has had longest: it took the first bytes.
  unfoldable pub complete : Bool → ℕ → Point → Point × List Event
  complete error bytes s = elim s.pending [
    | [] ↦ (s, [])
    | w ∷ ws ↦
        let (s1, es) = write_handler error bytes w (record s { pending = ws }) in
        (s1, sent (take bytes w.data_) ∷ es)
  ]

  unfoldable pub step : Op → Point → Point × List Event
  step (writes v) s = (write_impl v s, [])
  step (completes error bytes) s = complete error bytes s
  step reads s = async_read s
  step closes s = close_impl s
  step (received error bytes) s = receive error bytes s

  unfoldable pub run : List Op → Point → Point × List Event
  run [] s = (s, [])
  run (op ∷ ops) s = let (s1, es) = step op s in let (s2, more) = run ops s1 in (s2, es ++ more)
