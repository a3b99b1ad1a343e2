-- ===== src/Transport/Datagram.antt =====
-- include/srpc/common/transport/async/udp.h with the reading and the closing of async/base.h: the
-- queue of datagrams to write, and the receives that the socket has. Everything here runs on the
-- object's strand, one handler at a time. The socket is outside: what it was asked for is in
-- `sending` and `receiving`, and its completions are operations. An endpoint is asio's type, with
-- its port. The functions that a derived class overrides, `on_write_error` and the like, are
-- events.
pub mod Log
pub mod Order
pub mod Receiving
pub mod Tests
use dep_srpc.Base.{ℕ, ◌+◌, Bool, true, false, ◌==◌, if◌then◌else◌, Option, none, some}
use dep_srpc.Base.{List, [], ◌∷◌, ◌++◌}

-- `queue_value`, and `queue_callback` where there is a callback, here its number.
pub record QueueValue {ℓ} (E : Type ℓ) : Type ℓ where
  pub message : List ℕ
  pub to : E
  pub cback : Option ℕ

-- The handler bound to a send, and the two ways to receive.
pub data Handle : Type 0 where
  write_handle write_to_handle : Handle

pub data Receive : Type 0 where
  async_receive async_receive_from : Receive

pub record Datagram {ℓ} (E : Type ℓ) : Type ℓ where
  pub ep : E
  pub write_queue : List (QueueValue E)
  pub sending : List Handle
  pub receiving : List Receive
  pub active : Bool

-- What the object calls: the socket, the callbacks (the length is `post_call`'s), the delegate, and
-- its own virtual functions.
pub data Event {ℓ} (E : Type ℓ) : Type ℓ where
  async_send : List ℕ → Event E
  async_send_to : List ℕ → E → Event E
  pre_call : ℕ → Event E
  post_call : ℕ → Bool → ℕ → Event E
  delegate_on_write_error on_write_error : Event E
  on_write_to_error : E → Event E
  delegate_on_data : List ℕ → Event E
  delegate_on_read_error on_read_error delegate_on_close on_close : Event E

-- The handlers that run on the strand: posted writes and closes, the user's reads, and completions.
-- A completed receive has the error flag, the sender and the bytes.
pub data Op {ℓ} (E : Type ℓ) : Type ℓ where
  write_to_queue : QueueValue E → Op E
  sent : Bool → ℕ → Op E
  reads closes : Op E
  reads_from sets_endpoint : E → Op E
  received : Bool → E → List ℕ → Op E

module _ {ℓ} {E : Type ℓ} where
  unfoldable pub new_datagram : E → Datagram E
  new_datagram any = record {
    ep = any;
    write_queue = [];
    sending = [];
    receiving = [];
    active = true;
  }

  unfoldable pub precall : QueueValue E → List (Event E)
  precall v = elim v.cback [ none ↦ [] | some k ↦ pre_call k ∷ [] ]

  unfoldable pub postcall : QueueValue E → Bool → ℕ → List (Event E)
  postcall v error len = elim v.cback [ none ↦ [] | some k ↦ post_call k error len ∷ [] ]

  -- The calls of `write_handle` and `write_to_handle` on an error.
  unfoldable pub write_errors : Handle → QueueValue E → Bool → List (Event E)
  write_errors write_handle top error =
      if error then delegate_on_write_error ∷ on_write_error ∷ [] else []
  write_errors write_to_handle top error =
      if error then delegate_on_write_error ∷ on_write_to_error top.to ∷ [] else []

  -- `read`, which ends in `start_read_impl`.
  unfoldable pub read : Datagram E → Datagram E
  read s = record s { receiving = s.receiving ++ async_receive ∷ [] }

  unfoldable pub read_from : E → Datagram E → Datagram E
  read_from ep s = record s { ep = ep; receiving = s.receiving ++ async_receive_from ∷ [] }

  unfoldable pub set_endpoint : E → Datagram E → Datagram E
  set_endpoint val s = record s { ep = val }

  -- What `write` and `write_to` post, with the callback where there is one; `any` is the endpoint
  -- made by default.
  unfoldable pub write : E → List ℕ → Option ℕ → Op E
  write any bytes cback = write_to_queue (record { message = bytes; to = any; cback = cback })

  unfoldable pub write_to : E → List ℕ → Option ℕ → Op E
  write_to ep bytes cback = write_to_queue (record { message = bytes; to = ep; cback = cback })

  unfoldable pub read_handler : Bool → List ℕ → List (Event E)
  read_handler error bytes =
      if error then delegate_on_read_error ∷ on_read_error ∷ [] else delegate_on_data bytes ∷ []

  -- `async_receive_from` leaves the sender in the object's endpoint.
  unfoldable pub receive : Bool → E → List ℕ → Datagram E → Datagram E × List (Event E)
  receive error sender bytes s = elim s.receiving [
    | [] ↦ (s, [])
    | async_receive ∷ rs ↦ (record s { receiving = rs }, read_handler error bytes)
    | async_receive_from ∷ rs ↦ (record s { ep = sender; receiving = rs }, read_handler error bytes)
  ]

  unfoldable pub close_unsafe : Datagram E → Datagram E × List (Event E)
  close_unsafe s =
      if s.active then (record s { active = false }, delegate_on_close ∷ on_close ∷ []) else (s, [])

module _ {ℓ} {E : Type ℓ} (port : E → ℕ) where
  -- `async_write` for the front of the queue.
  unfoldable pub async_write : QueueValue E → Datagram E → Datagram E × List (Event E)
  async_write top s =
      if port top.to == 0
      then (
        record s { sending = s.sending ++ write_handle ∷ [] },
        precall top ++ async_send top.message ∷ [],
      )
      else (
        record s { sending = s.sending ++ write_to_handle ∷ [] },
        precall top ++ async_send_to top.message top.to ∷ [],
      )

  unfoldable pub write_to_queue_impl : QueueValue E → Datagram E → Datagram E × List (Event E)
  write_to_queue_impl val s =
      let pushed : Datagram E = record s { write_queue = s.write_queue ++ val ∷ [] } in
      elim s.write_queue [ [] ↦ async_write val pushed | _ ∷ _ ↦ (pushed, []) ]

  -- The end of both: the front leaves, and the next datagram starts.
  unfoldable pub next_datagram : List (QueueValue E) → Datagram E → Datagram E × List (Event E)
  next_datagram [] s = (record s { write_queue = [] }, [])
  next_datagram (next ∷ rest) s = async_write next (record s { write_queue = next ∷ rest })

  -- Both handlers; there is a front when one of them runs.
  unfoldable pub handle_write : Handle → Bool → ℕ → Datagram E → Datagram E × List (Event E)
  handle_write h error len s = elim s.write_queue [
    | [] ↦ (s, [])
    | top ∷ rest ↦
        let (s1, es) = next_datagram rest s in
        (s1, (write_errors h top error ++ postcall top error len) ++ es)
  ]

  -- The completion of the send that the socket has had longest.
  unfoldable pub complete : Bool → ℕ → Datagram E → Datagram E × List (Event E)
  complete error len s = elim s.sending [
    | [] ↦ (s, [])
    | h ∷ hs ↦ handle_write h error len (record s { sending = hs })
  ]

  unfoldable pub step : Op E → Datagram E → Datagram E × List (Event E)
  step (write_to_queue v) s = write_to_queue_impl v s
  step (sent error len) s = complete error len s
  step reads s = (read s, [])
  step closes s = close_unsafe s
  step (reads_from ep) s = (read_from ep s, [])
  step (sets_endpoint val) s = (set_endpoint val s, [])
  step (received error sender bytes) s = receive error sender bytes s

  unfoldable pub run : List (Op E) → Datagram E → Datagram E × List (Event E)
  run [] s = (s, [])
  run (op ∷ ops) s = let (s1, es) = step op s in let (s2, more) = run ops s1 in (s2, es ++ more)
