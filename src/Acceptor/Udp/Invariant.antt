-- ===== src/Acceptor/Udp/Invariant.antt =====
-- Every handler keeps the map of the clients in order.
use dep_srpc.Base.{
  ℕ, ◌<◌, ◌≡◌, refl, arith, Bool, Bool-cases, inl, inr, Option-cases, List, [], ◌∷◌,
}
use dep_srpc.Transport.Datagram
use dep_srpc.Transport.Datagram.{Datagram, QueueValue}
use dep_srpc.Acceptor.Udp.Clients
use dep_srpc.Acceptor.Udp.Clients.{Client, new_client, get_buffer, set_read_impl, push_data_impl}
use dep_srpc.Acceptor.Udp.Clients.Order.{ClientOk, step-Steps}
use dep_srpc.Acceptor.Udp.{
  Task, set_read, push_data, close_client, transport_write, transport_close, Udp, Op, binds,
  start_accepts, closes, runs, client_reads, releases, client_closes, client_writes, sent, received,
  post, lock, clean_clients, close, bind, accept_client, find, dispatch_data, close_impl,
  accept_on_data, deliver, deliver_all, transport_step, set_read_gone, push_data_gone, run_task,
  run_next, step, run,
}
use dep_srpc.Acceptor.Udp.Map.{Good, Good-weaken, find-Good, lock-Good, put-Good, erase-Good}

get_buffer-ok :
    (c : Client) (n : ℕ)
    → (c.number < n) × ClientOk c
    → ((get_buffer c).number < n) × ClientOk (get_buffer c)
unfolding get_buffer
get_buffer-ok c n h = h

new_client-ok : (n : ℕ) (bytes : List ℕ) → ClientOk (new_client n 10 bytes)
unfolding new_client
new_client-ok n bytes = (omega arith, tt)

set_read_impl-ok :
    (c : Client) (n : ℕ)
    → (c.number < n) × ClientOk c
    → ((set_read_impl c).0.number < n) × ClientOk (set_read_impl c).0
unfolding Clients.step
set_read_impl-ok c n (below, ok) =
    let (order, after, number) = step-Steps Clients.reads c ok in
    (omega (arith, number, below), after)

push_data_impl-ok :
    (bytes : List ℕ) (c : Client) (n : ℕ)
    → (c.number < n) × ClientOk c
    → ((push_data_impl bytes c).0.number < n) × ClientOk (push_data_impl bytes c).0
unfolding Clients.step
push_data_impl-ok bytes c n (below, ok) =
    let (order, after, number) = step-Steps (Clients.pushes bytes) c ok in
    (omega (arith, number, below), after)

module _ {ℓ} {E : Type ℓ} (same : E → E → Bool) (any : E) where
  abbrev pub InOrder : Udp E → Type 0
  InOrder u = Good same u.next_number u.clients

  dispatch_data-InOrder :
      (bytes : List ℕ) (u : Udp E) → InOrder u → InOrder (dispatch_data same bytes u).0
  unfolding dispatch_data post accept_client new_client
  dispatch_data-InOrder bytes u h = elim (Option-cases (find same u.acceptor.ep u.clients)) [
    | inr (c, e) ↦
        rw (dispatch_data, e)
          (put-Good same u.next_number c.number (get_buffer c) u.clients
            (get_buffer-ok c u.next_number
              (find-Good same u.next_number u.acceptor.ep u.clients c h e))
            h)
    | inl e ↦ elim (Bool-cases u.accept) [
      | inl on ↦
          rw (dispatch_data, e, on)
            (
              e,
              omega arith,
              new_client-ok u.next_number bytes,
              Good-weaken same u.next_number u.clients h,
            )
      | inr off ↦ rw (dispatch_data, e, off) h
    ]
  ]

  deliver-InOrder :
      (e : Datagram.Event E) (u : Udp E) → InOrder u → InOrder (deliver same any e u).0
  unfolding deliver accept_on_data
  deliver-InOrder (Datagram.delegate_on_data bytes) u h = dispatch_data-InOrder bytes u h
  deliver-InOrder Datagram.delegate_on_read_error u h = h
  deliver-InOrder Datagram.delegate_on_write_error u h = h
  deliver-InOrder Datagram.delegate_on_close u h = h
  deliver-InOrder (Datagram.async_send m) u h = h
  deliver-InOrder (Datagram.async_send_to m to) u h = h
  deliver-InOrder (Datagram.pre_call k) u h = h
  deliver-InOrder (Datagram.post_call k error len) u h = h
  deliver-InOrder Datagram.on_write_error u h = h
  deliver-InOrder (Datagram.on_write_to_error to) u h = h
  deliver-InOrder Datagram.on_read_error u h = h
  deliver-InOrder Datagram.on_close u h = h

  deliver_all-InOrder :
      (es : List (Datagram.Event E)) (u : Udp E) → InOrder u → InOrder (deliver_all same any es u).0
  unfolding deliver_all
  deliver_all-InOrder [] u h = h
  deliver_all-InOrder (e ∷ es) u h =
      deliver_all-InOrder es (deliver same any e u).0 (deliver-InOrder e u h)

  close_impl-InOrder : (ep : E) (u : Udp E) → InOrder u → InOrder (close_impl same ep u).0
  unfolding close_impl
  close_impl-InOrder ep u h = elim (Option-cases (find same ep u.clients)) [
    | inl e ↦ rw (close_impl, e) h
    | inr (c, e) ↦ rw (close_impl, e) (erase-Good same u.next_number ep u.clients h)
  ]

module _ {ℓ} {E : Type ℓ} (port : E → ℕ) (same : E → E → Bool) (any : E) where
  transport_step-InOrder :
      (op : Datagram.Op E) (u : Udp E)
      → InOrder same any u
      → InOrder same any (transport_step port same any op u).0
  unfolding transport_step
  transport_step-InOrder op u h =
      deliver_all-InOrder same any (Datagram.step port op u.acceptor).1
        (record u { acceptor = (Datagram.step port op u.acceptor).0 }) h

  set_read_gone-InOrder :
      (n : ℕ) (u : Udp E)
      → InOrder same any u
      → InOrder same any (set_read_gone port same any n u).0
  unfolding set_read_gone
  set_read_gone-InOrder n u h = elim (Option-cases (lock n u.gone)) [
    | inl e ↦ rw (set_read_gone, e) h
    | inr (c, e) ↦ rw (set_read_gone, e) h
  ]

  push_data_gone-InOrder :
      (n : ℕ) (bytes : List ℕ) (u : Udp E)
      → InOrder same any u
      → InOrder same any (push_data_gone port same any n bytes u).0
  unfolding push_data_gone
  push_data_gone-InOrder n bytes u h = elim (Option-cases (lock n u.gone)) [
    | inl e ↦ rw (push_data_gone, e) h
    | inr (c, e) ↦ rw (push_data_gone, e) h
  ]

  run_task-InOrder :
      (t : Task E) (u : Udp E)
      → InOrder same any u
      → InOrder same any (run_task port same any t u).0
  unfolding run_task
  run_task-InOrder (set_read n) u h = elim (Option-cases (lock n u.clients)) [
    | inl e ↦ rw (run_task, e) (set_read_gone-InOrder n u h)
    | inr (c, e) ↦
        rw (run_task, e)
          (put-Good same u.next_number n (set_read_impl c).0 u.clients
            (set_read_impl-ok c u.next_number (lock-Good same u.next_number n u.clients c h e)) h)
  ]
  run_task-InOrder (push_data n bytes) u h = elim (Option-cases (lock n u.clients)) [
    | inl e ↦ rw (run_task, e) (push_data_gone-InOrder n bytes u h)
    | inr (c, e) ↦
        rw (run_task, e)
          (put-Good same u.next_number n (push_data_impl bytes c).0 u.clients
            (push_data_impl-ok bytes c u.next_number
              (lock-Good same u.next_number n u.clients c h e))
            h)
  ]
  run_task-InOrder (close_client ep) u h = close_impl-InOrder same any ep u h
  run_task-InOrder (transport_write v) u h = transport_step-InOrder (Datagram.write_to_queue v) u h
  run_task-InOrder transport_close u h = transport_step-InOrder Datagram.closes u h

  run_next-InOrder :
      (ts : List (Task E)) (u : Udp E)
      → u.posted ≡ ts
      → InOrder same any u
      → InOrder same any (run_next port same any u).0
  unfolding run_next
  run_next-InOrder [] u e h = rw e h
  run_next-InOrder (t ∷ ts) u e h = rw e (run_task-InOrder t (record u { posted = ts }) h)

  step-InOrder :
      (op : Op E) (u : Udp E) → InOrder same any u → InOrder same any (step port same any op u).0
  unfolding step bind post close clean_clients
  step-InOrder binds u h = h
  step-InOrder start_accepts u h = h
  step-InOrder closes u h = tt
  step-InOrder runs u h = run_next-InOrder u.posted u refl h
  step-InOrder (client_reads n) u h = h
  step-InOrder (releases n) u h = h
  step-InOrder (client_closes ep) u h = h
  step-InOrder (client_writes v) u h = h
  step-InOrder (sent error len) u h = transport_step-InOrder (Datagram.sent error len) u h
  step-InOrder (received error sender bytes) u h =
      transport_step-InOrder (Datagram.received error sender bytes) u h

  -- From a state in which this holds, in every history with errors, closes and datagrams anywhere:
  -- no endpoint has two clients in the map, their numbers are below the next one, and none of them
  -- keeps more than `max_cache` datagrams, nor any while it is reading.
  pub run-InOrder :
      (ops : List (Op E)) (u : Udp E)
      → InOrder same any u
      → InOrder same any (run port same any ops u).0
  unfolding run
  run-InOrder [] u h = h
  run-InOrder (op ∷ ops) u h = run-InOrder ops (step port same any op u).0 (step-InOrder op u h)
