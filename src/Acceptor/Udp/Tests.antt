-- ===== src/Acceptor/Udp/Tests.antt =====
-- Concrete histories of the acceptor; an endpoint is its port.
use dep_srpc.Base.{ℕ, ◌≡◌, ◌==◌, refl, arith, true, false, List, [], ◌∷◌, ◌++◌, Bool}
use dep_srpc.Transport.Datagram
use dep_srpc.Transport.Datagram.{QueueValue}
use dep_srpc.Acceptor.Udp.Clients
use dep_srpc.Acceptor.Udp.Clients.{Client, new_client}
use dep_srpc.Acceptor.Udp.Clients.Order.{ClientOk, Sublist, pushed, run-Sublist}
use dep_srpc.Acceptor.Udp.{
  Udp, Op, on_write_error, on_accept_client, transport, binds, runs, client_reads, releases,
  client_closes, received, new_udp, bind, step, transport_step, deliver_all, deliver,
  accept_on_data, dispatch_data, find, accept_client, notify, run,
}
use dep_srpc.Acceptor.Udp.Invariant.{InOrder, run-InOrder}
use dep_srpc.Acceptor.Udp.Listening.{receives, listens, run-receives}

abbrev port : ℕ → ℕ
port n = n

abbrev same : ℕ → ℕ → Bool
same m n = m == n

abbrev fresh : Udp ℕ
fresh = new_udp 0 true

abbrev bound : Udp ℕ
bound = bind 0 fresh

-- Two endpoints, a second datagram of the first, reads of its client, and a close.
abbrev history : List (Op ℕ)
history =
    received false 7 (1 ∷ [])
    ∷ received false 8 (2 ∷ [])
    ∷ received false 7 (3 ∷ [])
    ∷ client_reads 0
    ∷ runs
    ∷ runs
    ∷ client_closes 7
    ∷ client_reads 0
    ∷ runs
    ∷ runs
    ∷ releases 0
    ∷ received true 8 []
    ∷ []

run-InOrder_example : InOrder same 0 (run port same 0 (binds ∷ history) fresh).0
unfolding new_udp
run-InOrder_example = run-InOrder port same 0 (binds ∷ history) fresh tt

run-receives_example :
    (run port same 0 history bound).0.acceptor.receiving ≡ receives (listens true history)
unfolding bind new_udp receives Datagram.read_from Datagram.new_datagram
run-receives_example = run-receives port same 0 history true bound tt refl

abbrev client_history : List Clients.Op
client_history =
    Clients.pushes (2 ∷ [])
    ∷ Clients.reads
    ∷ Clients.reads
    ∷ Clients.reads
    ∷ Clients.pushes (3 ∷ [])
    ∷ []

abbrev first_client : Client
first_client = new_client 0 10 (1 ∷ [])

run-Sublist_example :
    Sublist
      ((Clients.run client_history first_client).1
        ++ (Clients.run client_history first_client).0.read_queue)
      (first_client.read_queue ++ pushed client_history)
    × ClientOk (Clients.run client_history first_client).0
unfolding new_client
run-Sublist_example = run-Sublist client_history first_client (omega arith, tt)

-- A receive that fails is told to the client as a write error.
read_error_swapped :
    (run port same 0 (received false 7 (1 ∷ []) ∷ received true 7 [] ∷ []) bound).1
    ≡ on_accept_client 0 7 ∷ on_write_error 0 ∷ transport Datagram.on_read_error ∷ []
unfolding run step transport_step deliver_all Datagram.step Datagram.receive bind Datagram.read_from
    new_udp Datagram.new_datagram Datagram.read_handler deliver accept_on_data dispatch_data find
    accept_client notify new_client
read_error_swapped = refl
