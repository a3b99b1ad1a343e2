-- ===== src/Transport/Stream.antt =====
-- include/srpc/common/transport/async/stream.h: the queue of messages to write, and the closing of
-- async/base.h. Everything here runs on the object's strand, one handler at a time. The socket is
-- outside: `async_write_some` is a write in `pending`, and its completion is an operation with the
-- error flag and the number of bytes that the socket took. The virtual `on_write_error` and
-- `on_close` are events; reading passes on to the delegate and is left out.
pub mod Bytes
pub mod Callbacks
pub mod Closing
pub mod OneWrite
pub mod Tests
use dep_srpc.Base.{ℕ, ◌+◌, ◌-◌, Bool, true, false, ltb, if◌then◌else◌, Option, none, some}
use dep_srpc.Base.{List, [], ◌∷◌, ◌++◌, length, take, drop}

-- `queue_value`, and `queue_callback` where there is a callback, here its number.
pub record QueueValue : Type 0 where
  pub message : List ℕ
  pub cback : Option ℕ

-- A write that the socket has: the buffer, and the arguments bound into the handler.
pub record Write : Type 0 where
  pub data_ : List ℕ
  pub size : ℕ
  pub total : ℕ

-- `post_call` has its callback, whether there was an error, and a length.
pub data Event : Type 0 where
  sent : List ℕ → Event
  post_call : ℕ → Bool → ℕ → Event
  write_error on_close : Event

pub record Stream : Type 0 where
  pub write_queue : List QueueValue
  pub active : Bool
  pub pending : List Write

unfoldable pub new_stream : Stream
new_stream = record { write_queue = []; active = true; pending = [] }

-- `async_write( data, length, total )`.
unfoldable pub async_write_at : List ℕ → ℕ → ℕ → Stream → Stream
async_write_at data_ size total s =
    if s.active
    then record s {
      pending = s.pending ++ record { data_ = data_; size = size; total = total } ∷ [];
    }
    else s

-- `async_write( )` where the queue has a front.
unfoldable pub async_write : Stream → Stream
async_write s = elim s.write_queue [
  | [] ↦ s
  | top ∷ _ ↦ async_write_at top.message (length top.message) 0 s
]

-- `postcall`: nothing for a message without a callback.
unfoldable pub postcall : QueueValue → Bool → ℕ → List Event
postcall v error bytes = elim v.cback [ none ↦ [] | some k ↦ post_call k error bytes ∷ [] ]

-- The end of both branches of the handler: the front leaves, and the next message starts.
unfoldable pub next_message : List QueueValue → Stream → Stream
next_message rest s = async_write (record s { write_queue = rest })

-- `write_handler`, for the write `w` that has just left `pending`. There is a front when it runs.
unfoldable pub write_handler : Bool → ℕ → Write → Stream → Stream × List Event
write_handler error bytes w s = elim s.write_queue [
  | [] ↦ (s, [])
  | top ∷ rest ↦
      if error
      then (next_message rest s, postcall top error bytes ++ write_error ∷ [])
      else if ltb bytes w.size
      then (
        async_write_at (drop (w.total + bytes) top.message) (length top.message - (w.total + bytes))
            (w.total + bytes) s,
        [],
      )
      else (next_message rest s, postcall top error bytes)
]

unfoldable pub write_impl : QueueValue → Stream → Stream
write_impl data_ s =
    let pushed : Stream = record s { write_queue = s.write_queue ++ data_ ∷ [] } in
    elim s.write_queue [ [] ↦ async_write pushed | _ ∷ _ ↦ pushed ]

-- `close_unsafe`.
unfoldable pub close_unsafe : Stream → Stream × List Event
close_unsafe s = if s.active then (record s { active = false }, on_close ∷ []) else (s, [])

-- The handlers that the strand runs.
pub data Op : Type 0 where
  writes : QueueValue → Op
  completes : Bool → ℕ → Op
  closes : Op

-- The completion of the write that the socket has had longest: the socket took the first bytes.
unfoldable pub complete : Bool → ℕ → Stream → Stream × List Event
complete error bytes s = elim s.pending [
  | [] ↦ (s, [])
  | w ∷ ws ↦
      let (s1, es) = write_handler error bytes w (record s { pending = ws }) in
      (s1, sent (take bytes w.data_) ∷ es)
]

unfoldable pub step : Op → Stream → Stream × List Event
step (writes v) s = (write_impl v s, [])
step (completes error bytes) s = complete error bytes s
step closes s = close_unsafe s

unfoldable pub run : List Op → Stream → Stream × List Event
run [] s = (s, [])
run (op ∷ ops) s = let (s1, es) = step op s in let (s2, more) = run ops s1 in (s2, es ++ more)
