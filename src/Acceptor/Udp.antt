-- ===== src/Acceptor/Udp.antt =====
-- include/srpc/server/acceptor/async/udp.h: the acceptor over one datagram transport, with a client
-- for each endpoint. Clients.antt is the class of the clients. Everything here runs on the
-- transport's strand; what is posted to it waits in `posted` and is run from the front. A posted
-- handler holds a weak pointer to its client, here the client's number: it does nothing once nobody
-- holds the client, which the map does, and users may. The map is the list of its entries, and
-- `same` compares endpoints. Users give a client its delegate in `on_accept_client`, and use none
-- after the acceptor's `close`, which sets the clients' parent to NULL.
pub mod Clients
pub mod Invariant
pub mod Listening
pub mod Map
pub mod Tests
use dep_srpc.Base.{
  ℕ, ◌+◌, Bool, true, false, ◌==◌, if◌then◌else◌, Option, none, some, List, [], ◌∷◌, ◌++◌,
}
use dep_srpc.Transport.Datagram
use dep_srpc.Transport.Datagram.{Datagram, QueueValue}
use dep_srpc.Acceptor.Udp.Clients.{Client, new_client, get_buffer, set_read_impl, push_data_impl}

-- The handlers that are posted: `set_read_impl`, `push_data_impl`, `close_impl`, and those of the
-- transport's `write_to` and `close`.
pub data Task {ℓ} (E : Type ℓ) : Type ℓ where
  set_read : ℕ → Task E
  push_data : ℕ → List ℕ → Task E
  close_client : E → Task E
  transport_write : QueueValue E → Task E
  transport_close : Task E

-- The calls of the clients' delegates, with the client's number, of the acceptor's delegate, and
-- what the transport calls itself.
pub data Event {ℓ} (E : Type ℓ) : Type ℓ where
  on_data : ℕ → List ℕ → Event E
  on_read_error on_write_error on_close : ℕ → Event E
  on_accept_client : ℕ → E → Event E
  acceptor_on_close : Event E
  transport : Datagram.Event E → Event E

-- The members, and the clients that have left the map and that users still hold.
pub record Udp {ℓ} (E : Type ℓ) : Type ℓ where
  pub acceptor : Datagram E
  pub accept : Bool
  pub clients : List (E × Client)
  pub gone : List (E × Client)
  pub posted : List (Task E)
  pub next_number : ℕ

-- What users call, the completions of the socket, and the strand's next handler. `releases` drops
-- the last shared pointer of users to a client that has left the map; it follows at once where they
-- hold none.
pub data Op {ℓ} (E : Type ℓ) : Type ℓ where
  binds start_accepts closes runs : Op E
  client_reads releases : ℕ → Op E
  client_closes : E → Op E
  client_writes : QueueValue E → Op E
  sent : Bool → ℕ → Op E
  received : Bool → E → List ℕ → Op E

module _ {ℓ} {E : Type ℓ} where
  -- `accept_` has no initial value in the source.
  unfoldable pub new_udp : E → Bool → Udp E
  new_udp any accept = record {
    acceptor = Datagram.new_datagram any;
    accept = accept;
    clients = [];
    gone = [];
    posted = [];
    next_number = 0;
  }

  unfoldable pub post : Task E → Udp E → Udp E
  post t u = record u { posted = u.posted ++ t ∷ [] }

  -- The client of a weak pointer, and the map with that client changed.
  unfoldable pub lock : ℕ → List (E × Client) → Option Client
  lock n [] = none
  lock n ((ep, c) ∷ rest) = let found = lock n rest in if c.number == n then some c else found

  unfoldable pub put : ℕ → Client → List (E × Client) → List (E × Client)
  put n new [] = []
  put n new ((ep, c) ∷ rest) =
      let changed = put n new rest in
      if c.number == n then (ep, new) ∷ changed else (ep, c) ∷ changed

  -- The clients without that one.
  unfoldable pub release : ℕ → List (E × Client) → List (E × Client)
  release n [] = []
  release n ((ep, c) ∷ rest) =
      let others = release n rest in if c.number == n then others else (ep, c) ∷ others

  unfoldable pub closing : List (E × Client) → List (Event E)
  closing [] = []
  closing ((ep, c) ∷ rest) = on_close c.number ∷ closing rest

  -- The loop of `clean_clients`, and the emptied map.
  unfoldable pub clean_clients : Udp E → Udp E × List (Event E)
  clean_clients u = (record u { clients = []; gone = u.gone ++ u.clients }, closing u.clients)

  unfoldable pub close : Udp E → Udp E × List (Event E)
  close u = let (u1, es) = clean_clients (post transport_close u) in (u1, acceptor_on_close ∷ es)

  unfoldable pub data_events : ℕ → List (List ℕ) → List (Event E)
  data_events n [] = []
  data_events n (d ∷ ds) = on_data n d ∷ data_events n ds

  unfoldable pub bind : E → Udp E → Udp E
  bind any u = record u { acceptor = Datagram.read_from any u.acceptor }

  -- The new client of `accept_delegate::on_data`.
  unfoldable pub accept_client : E → List ℕ → Udp E → Udp E × List (Event E)
  accept_client ep bytes u = (
    record u {
      clients = (ep, new_client u.next_number 10 bytes) ∷ u.clients;
      next_number = u.next_number + 1;
    },
    on_accept_client u.next_number ep ∷ [],
  )

module _ {ℓ} {E : Type ℓ} (same : E → E → Bool) where
  unfoldable pub find : E → List (E × Client) → Option Client
  find ep [] = none
  find ep ((to, c) ∷ rest) = let found = find ep rest in if same ep to then some c else found

  unfoldable pub erase : E → List (E × Client) → List (E × Client)
  erase ep [] = []
  erase ep ((to, c) ∷ rest) =
      let left = erase ep rest in if same ep to then rest else (to, c) ∷ left

  -- Before the next `read_from`.
  unfoldable pub dispatch_data : List ℕ → Udp E → Udp E × List (Event E)
  dispatch_data bytes u = elim (find u.acceptor.ep u.clients) [
    | some c ↦ (
      post (push_data c.number bytes)
          (record u { clients = put c.number (get_buffer c) u.clients }),
      [],
    )
    | none ↦ if u.accept then accept_client u.acceptor.ep bytes u else (u, [])
  ]

  -- A call for the client of the transport's endpoint, where there is one.
  unfoldable pub notify : (ℕ → Event E) → Udp E → List (Event E)
  notify call u = elim (find u.acceptor.ep u.clients) [ none ↦ [] | some c ↦ call c.number ∷ [] ]

  unfoldable pub close_impl : E → Udp E → Udp E × List (Event E)
  close_impl ep u = elim (find ep u.clients) [
    | none ↦ (u, [])
    | some c ↦ (
      record u { clients = erase ep u.clients; gone = u.gone ++ (ep, c) ∷ [] },
      on_close c.number ∷ [],
    )
  ]

-- `any` is the endpoint made by default.
module _ {ℓ} {E : Type ℓ} (same : E → E → Bool) (any : E) where
  unfoldable pub accept_on_data : List ℕ → Udp E → Udp E × List (Event E)
  accept_on_data bytes u =
      let (u1, es) = dispatch_data same bytes u in
      (record u1 { acceptor = Datagram.read_from any u1.acceptor }, es)

  -- `accept_delegate`: a read error is given to the client as a write error, and the other way
  -- round.
  unfoldable pub deliver : Datagram.Event E → Udp E → Udp E × List (Event E)
  deliver (Datagram.delegate_on_data bytes) u = accept_on_data bytes u
  deliver Datagram.delegate_on_read_error u = (u, notify same on_write_error u)
  deliver Datagram.delegate_on_write_error u = (u, notify same on_read_error u)
  deliver Datagram.delegate_on_close u = (u, notify same on_close u)
  deliver (Datagram.async_send m) u = (u, transport (Datagram.async_send m) ∷ [])
  deliver (Datagram.async_send_to m to) u = (u, transport (Datagram.async_send_to m to) ∷ [])
  deliver (Datagram.pre_call k) u = (u, transport (Datagram.pre_call k) ∷ [])
  deliver (Datagram.post_call k e n) u = (u, transport (Datagram.post_call k e n) ∷ [])
  deliver Datagram.on_write_error u = (u, transport Datagram.on_write_error ∷ [])
  deliver (Datagram.on_write_to_error to) u = (u, transport (Datagram.on_write_to_error to) ∷ [])
  deliver Datagram.on_read_error u = (u, transport Datagram.on_read_error ∷ [])
  deliver Datagram.on_close u = (u, transport Datagram.on_close ∷ [])

  unfoldable pub deliver_all : List (Datagram.Event E) → Udp E → Udp E × List (Event E)
  deliver_all [] u = (u, [])
  deliver_all (e ∷ es) u =
      let (u1, calls) = deliver e u in let (u2, more) = deliver_all es u1 in (u2, calls ++ more)

module _ {ℓ} {E : Type ℓ} (port : E → ℕ) (same : E → E → Bool) (any : E) where
  -- A handler of the transport, with the calls that it makes.
  unfoldable pub transport_step : Datagram.Op E → Udp E → Udp E × List (Event E)
  transport_step op u =
      let (t, es) = Datagram.step port op u.acceptor in
      deliver_all same any es (record u { acceptor = t })

  -- A handler of a client that has left the map.
  unfoldable pub set_read_gone : ℕ → Udp E → Udp E × List (Event E)
  set_read_gone n u = elim (lock n u.gone) [
    | none ↦ (u, [])
    | some c ↦
        let (c1, ds) = set_read_impl c in (record u { gone = put n c1 u.gone }, data_events n ds)
  ]

  unfoldable pub push_data_gone : ℕ → List ℕ → Udp E → Udp E × List (Event E)
  push_data_gone n bytes u = elim (lock n u.gone) [
    | none ↦ (u, [])
    | some c ↦
        let (c1, ds) = push_data_impl bytes c in
        (record u { gone = put n c1 u.gone }, data_events n ds)
  ]

  unfoldable pub run_task : Task E → Udp E → Udp E × List (Event E)
  run_task (set_read n) u = elim (lock n u.clients) [
    | none ↦ set_read_gone n u
    | some c ↦
        let (c1, ds) = set_read_impl c in
        (record u { clients = put n c1 u.clients }, data_events n ds)
  ]
  run_task (push_data n bytes) u = elim (lock n u.clients) [
    | none ↦ push_data_gone n bytes u
    | some c ↦
        let (c1, ds) = push_data_impl bytes c in
        (record u { clients = put n c1 u.clients }, data_events n ds)
  ]
  run_task (close_client ep) u = close_impl same ep u
  run_task (transport_write v) u = transport_step (Datagram.write_to_queue v) u
  run_task transport_close u = transport_step Datagram.closes u

  unfoldable pub run_next : Udp E → Udp E × List (Event E)
  run_next u = elim u.posted [ [] ↦ (u, []) | t ∷ ts ↦ run_task t (record u { posted = ts }) ]

  unfoldable pub step : Op E → Udp E → Udp E × List (Event E)
  step binds u = (bind any u, [])
  step start_accepts u = (record u { accept = true }, [])
  step closes u = close u
  step runs u = run_next u
  step (client_reads n) u = (post (set_read n) u, [])
  step (releases n) u = (record u { gone = release n u.gone }, [])
  step (client_closes ep) u = (post (close_client ep) u, [])
  step (client_writes v) u = (post (transport_write v) u, [])
  step (sent error len) u = transport_step (Datagram.sent error len) u
  step (received error sender bytes) u = transport_step (Datagram.received error sender bytes) u

  unfoldable pub run : List (Op E) → Udp E → Udp E × List (Event E)
  run [] u = (u, [])
  run (op ∷ ops) u = let (u1, es) = step op u in let (u2, more) = run ops u1 in (u2, es ++ more)
