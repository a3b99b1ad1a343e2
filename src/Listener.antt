-- ===== src/Listener.antt =====
-- lib/server/listener: `base::impl` of base.h over an acceptor, and its TCP instance of tcp.cpp.
-- The observer lists `on_accept`, `on_accept_error` and `on_close` are events. `accept_delegate`
-- has a weak pointer to the listener and does nothing once it has gone, and the acceptor with it.
pub mod Accepting
pub mod Tests
use dep_srpc.Base.{ℕ, Bool, true, false, if◌then◌else◌, List, [], ◌∷◌, ◌++◌}
use dep_srpc.Acceptor.Interface.{
  Delegate, on_accept_client, on_accept_error, on_close, Socket, Call, calls_delegate, calls_socket,
  Interface,
}
use dep_srpc.Acceptor.Tcp
use dep_srpc.Acceptor.Tcp.{Tcp, new_tcp}

pub data Event {ℓ} (E : Type ℓ) : Type ℓ where
  accept : ℕ → E → Event E
  accept_error closed : Event E
  socket : Socket E → Event E

pub record Impl {ℓ} (S : Type ℓ) : Type ℓ where
  pub acceptor : S
  pub alive : Bool

module _ {ℓ} {E : Type ℓ} where
  unfoldable pub socket_calls : List (Socket E) → List (Event E)
  socket_calls [] = []
  socket_calls (c ∷ cs) = socket c ∷ socket_calls cs

module _ {ℓ} {E S : Type ℓ} (acceptor_type : Interface E S) where
  -- `accept_delegate`.
  unfoldable pub deliver : Delegate E → Impl S → Impl S × List (Event E)
  deliver (on_accept_client client ep) l =
      if l.alive
      then (
        record l { acceptor = (acceptor_type.start_accept l.acceptor).0 },
        accept client ep ∷ socket_calls (acceptor_type.start_accept l.acceptor).1,
      )
      else (l, [])
  deliver on_accept_error l = if l.alive then (l, accept_error ∷ []) else (l, [])
  deliver on_close l = if l.alive then (l, closed ∷ []) else (l, [])

  unfoldable pub deliver_all : List (Delegate E) → Impl S → Impl S × List (Event E)
  deliver_all [] l = (l, [])
  deliver_all (c ∷ cs) l =
      let (l1, es) = deliver c l in let (l2, more) = deliver_all cs l1 in (l2, es ++ more)

  unfoldable pub call_all : List (Call E) → Impl S → Impl S × List (Event E)
  call_all [] l = (l, [])
  call_all (calls_delegate c ∷ cs) l =
      let (l1, es) = deliver c l in let (l2, more) = call_all cs l1 in (l2, es ++ more)
  call_all (calls_socket c ∷ cs) l = let (l1, more) = call_all cs l in (l1, socket c ∷ more)

  unfoldable pub start : Impl S → Impl S × List (Event E)
  start l =
      let (s1, opened) = acceptor_type.open_ l.acceptor in
      let (s2, bound) = acceptor_type.bind s1 in
      let (s3, accepts) = acceptor_type.start_accept s2 in
      (record l { acceptor = s3 }, socket_calls (opened ++ bound ++ accepts))

  unfoldable pub stop : Impl S → Impl S × List (Event E)
  stop l =
      let (s1, calls) = acceptor_type.close l.acceptor in
      call_all calls (record l { acceptor = s1 })

  -- The end of the last shared pointer to the listener, and with it of its acceptor.
  unfoldable pub release : Impl S → Impl S
  release l = record { acceptor = acceptor_type.release l.acceptor; alive = false }

-- What users do, and the completions of the socket.
pub data Op {ℓ} (E : Type ℓ) : Type ℓ where
  starts stops releases : Op E
  accepted : Bool → E → Op E

module _ {ℓ} {E : Type ℓ} where
  -- `create` of tcp.cpp; whether the address is of version 6 is told beside the endpoint.
  unfoldable pub create : E → Bool → Impl (Tcp E)
  create ep is_v6 = record { acceptor = new_tcp ep is_v6; alive = true }

  unfoldable pub step : Op E → Impl (Tcp E) → Impl (Tcp E) × List (Event E)
  step starts l = start Tcp.tcp l
  step stops l = stop Tcp.tcp l
  step releases l = (release Tcp.tcp l, [])
  step (accepted error ep) l =
      let (s1, calls) = Tcp.complete error ep l.acceptor in
      deliver_all Tcp.tcp calls (record l { acceptor = s1 })

  unfoldable pub run : List (Op E) → Impl (Tcp E) → Impl (Tcp E) × List (Event E)
  run [] l = (l, [])
  run (op ∷ ops) l = let (l1, es) = step op l in let (l2, more) = run ops l1 in (l2, es ++ more)
