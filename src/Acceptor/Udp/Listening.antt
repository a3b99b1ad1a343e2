-- ===== src/Acceptor/Udp/Listening.antt =====
-- The acceptor's receives.
use dep_srpc.Base.{
  ℕ, ◌≡◌, refl, ap, ◌∙◌, Bool, true, false, if◌then◌else◌, Bool-cases, inl, inr, Option-cases, List,
  [], ◌∷◌, ◌++◌,
}
use dep_srpc.Transport.Datagram
use dep_srpc.Transport.Datagram.{Datagram, QueueValue, Receive, async_receive_from}
use dep_srpc.Transport.Datagram.Receiving.{
  NoData, Steady, close-Steady, write-Steady, complete-Steady,
}
use dep_srpc.Acceptor.Udp.{
  Task, set_read, push_data, close_client, transport_write, transport_close, Udp, Op, binds,
  start_accepts, closes, runs, client_reads, releases, client_closes, client_writes, sent, received,
  post, lock, clean_clients, close, accept_client, find, dispatch_data, close_impl, accept_on_data,
  deliver, deliver_all, transport_step, set_read_gone, push_data_gone, run_task, run_next, step,
  run,
}

-- Whether the acceptor listens after a history, where it did before or not: a receive that ends
-- with an error ends the listening.
unfoldable pub listens {ℓ} : {E : Type ℓ} → Bool → List (Op E) → Bool
listens b [] = b
listens b (received error sender bytes ∷ ops) = listens (if error then false else b) ops
listens b (binds ∷ ops) = listens b ops
listens b (start_accepts ∷ ops) = listens b ops
listens b (closes ∷ ops) = listens b ops
listens b (runs ∷ ops) = listens b ops
listens b (client_reads n ∷ ops) = listens b ops
listens b (releases n ∷ ops) = listens b ops
listens b (client_closes ep ∷ ops) = listens b ops
listens b (client_writes v ∷ ops) = listens b ops
listens b (sent error len ∷ ops) = listens b ops

-- `bind` is not called again.
abbrev pub NoBind {ℓ} : {E : Type ℓ} → List (Op E) → Type 0
NoBind [] = Unit
NoBind (binds ∷ ops) = ⊥
NoBind (_ ∷ ops) = NoBind ops

-- The socket's receives: one, or none.
unfoldable pub receives : Bool → List Receive
receives true = async_receive_from ∷ []
receives false = []

module _ {ℓ} {E : Type ℓ} (same : E → E → Bool) (any : E) where
  -- Whatever arrives, the receives stay, but for the one that the next `read_from` adds.
  dispatch_data-acceptor :
      (bytes : List ℕ) (u : Udp E) → (dispatch_data same bytes u).0.acceptor ≡ u.acceptor
  unfolding dispatch_data post accept_client
  dispatch_data-acceptor bytes u = elim (Option-cases (find same u.acceptor.ep u.clients)) [
    | inr (c, e) ↦ rw (dispatch_data, e) refl
    | inl e ↦ elim (Bool-cases u.accept) [
      | inl on ↦ rw (dispatch_data, e, on) refl
      | inr off ↦ rw (dispatch_data, e, off) refl
    ]
  ]

  accept_on_data-receives :
      (bytes : List ℕ) (u : Udp E)
      → u.acceptor.receiving ≡ []
      → (accept_on_data same any bytes u).0.acceptor.receiving ≡ receives true
  unfolding accept_on_data receives Datagram.read_from
  accept_on_data-receives bytes u h =
      ap (λ d. d.receiving ++ async_receive_from ∷ []) (dispatch_data-acceptor bytes u)
      ∙ ap (λ rs. rs ++ async_receive_from ∷ []) h

  deliver_all-receives :
      (es : List (Datagram.Event E)) (u : Udp E)
      → NoData es
      → (deliver_all same any es u).0.acceptor ≡ u.acceptor
  unfolding deliver_all deliver
  deliver_all-receives [] u h = refl
  deliver_all-receives (Datagram.delegate_on_data bytes ∷ es) u h = absurd h
  deliver_all-receives (Datagram.delegate_on_read_error ∷ es) u h = deliver_all-receives es u h
  deliver_all-receives (Datagram.delegate_on_write_error ∷ es) u h = deliver_all-receives es u h
  deliver_all-receives (Datagram.delegate_on_close ∷ es) u h = deliver_all-receives es u h
  deliver_all-receives (Datagram.async_send m ∷ es) u h = deliver_all-receives es u h
  deliver_all-receives (Datagram.async_send_to m to ∷ es) u h = deliver_all-receives es u h
  deliver_all-receives (Datagram.pre_call k ∷ es) u h = deliver_all-receives es u h
  deliver_all-receives (Datagram.post_call k error len ∷ es) u h = deliver_all-receives es u h
  deliver_all-receives (Datagram.on_write_error ∷ es) u h = deliver_all-receives es u h
  deliver_all-receives (Datagram.on_write_to_error to ∷ es) u h = deliver_all-receives es u h
  deliver_all-receives (Datagram.on_read_error ∷ es) u h = deliver_all-receives es u h
  deliver_all-receives (Datagram.on_close ∷ es) u h = deliver_all-receives es u h

module _ {ℓ} {E : Type ℓ} (port : E → ℕ) (same : E → E → Bool) (any : E) where
  steady :
      (op : Datagram.Op E) (u : Udp E)
      → Steady u.acceptor.receiving (Datagram.step port op u.acceptor)
      → (transport_step port same any op u).0.acceptor.receiving ≡ u.acceptor.receiving
  unfolding transport_step
  steady op u (kept, quiet) =
      ap (λ d. d.receiving)
        (deliver_all-receives same any (Datagram.step port op u.acceptor).1
          (record u { acceptor = (Datagram.step port op u.acceptor).0 }) quiet)
      ∙ kept

  write-receives :
      (v : QueueValue E) (u : Udp E)
      → (transport_step port same any (Datagram.write_to_queue v) u).0.acceptor.receiving
        ≡ u.acceptor.receiving
  unfolding Datagram.step
  write-receives v u = steady (Datagram.write_to_queue v) u (write-Steady port v u.acceptor)

  sent-receives :
      (error : Bool) (len : ℕ) (u : Udp E)
      → (transport_step port same any (Datagram.sent error len) u).0.acceptor.receiving
        ≡ u.acceptor.receiving
  unfolding Datagram.step
  sent-receives error len u =
      steady (Datagram.sent error len) u (complete-Steady port error len u.acceptor)

  close-receives :
      (u : Udp E)
      → (transport_step port same any Datagram.closes u).0.acceptor.receiving ≡ u.acceptor.receiving
  unfolding Datagram.step
  close-receives u = steady Datagram.closes u (close-Steady u.acceptor)

  close_impl-receives : (ep : E) (u : Udp E) → (close_impl same ep u).0.acceptor ≡ u.acceptor
  unfolding close_impl
  close_impl-receives ep u = elim (Option-cases (find same ep u.clients)) [
    | inl e ↦ rw (close_impl, e) refl
    | inr (c, e) ↦ rw (close_impl, e) refl
  ]

  set_read_gone-receives :
      (n : ℕ) (u : Udp E)
      → (set_read_gone port same any n u).0.acceptor.receiving ≡ u.acceptor.receiving
  unfolding set_read_gone
  set_read_gone-receives n u = elim (Option-cases (lock n u.gone)) [
    | inl e ↦ rw (set_read_gone, e) refl
    | inr (c, e) ↦ rw (set_read_gone, e) refl
  ]

  push_data_gone-receives :
      (n : ℕ) (bytes : List ℕ) (u : Udp E)
      → (push_data_gone port same any n bytes u).0.acceptor.receiving ≡ u.acceptor.receiving
  unfolding push_data_gone
  push_data_gone-receives n bytes u = elim (Option-cases (lock n u.gone)) [
    | inl e ↦ rw (push_data_gone, e) refl
    | inr (c, e) ↦ rw (push_data_gone, e) refl
  ]

  run_task-receives :
      (t : Task E) (u : Udp E)
      → (run_task port same any t u).0.acceptor.receiving ≡ u.acceptor.receiving
  unfolding run_task
  run_task-receives (set_read n) u = elim (Option-cases (lock n u.clients)) [
    | inl e ↦ rw (run_task, e) (set_read_gone-receives n u)
    | inr (c, e) ↦ rw (run_task, e) refl
  ]
  run_task-receives (push_data n bytes) u = elim (Option-cases (lock n u.clients)) [
    | inl e ↦ rw (run_task, e) (push_data_gone-receives n bytes u)
    | inr (c, e) ↦ rw (run_task, e) refl
  ]
  run_task-receives (close_client ep) u = ap (λ d. d.receiving) (close_impl-receives ep u)
  run_task-receives (transport_write v) u = write-receives v u
  run_task-receives transport_close u = close-receives u

  run_next-receives :
      (ts : List (Task E)) (u : Udp E)
      → u.posted ≡ ts
      → (run_next port same any u).0.acceptor.receiving ≡ u.acceptor.receiving
  unfolding run_next
  run_next-receives [] u e = rw e refl
  run_next-receives (t ∷ ts) u e = rw e (run_task-receives t (record u { posted = ts }))

  -- A receive that ends where there is one.
  received-receives :
      (error : Bool) (sender : E) (bytes : List ℕ) (b : Bool) (u : Udp E)
      → u.acceptor.receiving ≡ receives b
      → (step port same any (received error sender bytes) u).0.acceptor.receiving
        ≡ receives (if error then false else b)
  unfolding step transport_step Datagram.step Datagram.receive Datagram.read_handler deliver_all
      deliver receives
  received-receives true sender bytes false u h = rw h refl
  received-receives false sender bytes false u h = rw h refl
  received-receives true sender bytes true u h = rw h refl
  received-receives false sender bytes true u h = rw h (
      accept_on_data-receives same any bytes
        (record u { acceptor = record u.acceptor { ep = sender; receiving = [] } }) refl)

  step-receives :
      (op : Op E) (ops : List (Op E)) (b : Bool) (u : Udp E)
      → NoBind (op ∷ ops)
      → u.acceptor.receiving ≡ receives b
      → (step port same any op u).0.acceptor.receiving ≡ receives (listens b (op ∷ []))
  unfolding step post close clean_clients listens
  step-receives binds ops b u n h = absurd n
  step-receives start_accepts ops b u n h = h
  step-receives closes ops b u n h = h
  step-receives runs ops b u n h = run_next-receives u.posted u refl ∙ h
  step-receives (client_reads m) ops b u n h = h
  step-receives (releases m) ops b u n h = h
  step-receives (client_closes ep) ops b u n h = h
  step-receives (client_writes v) ops b u n h = h
  step-receives (sent error len) ops b u n h = sent-receives error len u ∙ h
  step-receives (received error sender bytes) ops b u n h =
      received-receives error sender bytes b u h

  -- In every history that calls `bind` no more, with sends, closes and handlers anywhere: as long
  -- as no receive ends with an error the socket has exactly one receive of the acceptor, and from
  -- the first error on it has none, so no datagram is taken any more.
  pub run-receives :
      (ops : List (Op E)) (b : Bool) (u : Udp E)
      → NoBind ops
      → u.acceptor.receiving ≡ receives b
      → (run port same any ops u).0.acceptor.receiving ≡ receives (listens b ops)
  unfolding run listens
  run-receives [] b u n h = h
  run-receives (binds ∷ ops) b u n h = absurd n
  run-receives (start_accepts ∷ ops) b u n h =
      run-receives ops b (step port same any start_accepts u).0 n
        (step-receives start_accepts ops b u n h)
  run-receives (closes ∷ ops) b u n h =
      run-receives ops b (step port same any closes u).0 n (step-receives closes ops b u n h)
  run-receives (runs ∷ ops) b u n h =
      run-receives ops b (step port same any runs u).0 n (step-receives runs ops b u n h)
  run-receives (client_reads m ∷ ops) b u n h =
      run-receives ops b (step port same any (client_reads m) u).0 n
        (step-receives (client_reads m) ops b u n h)
  run-receives (releases m ∷ ops) b u n h =
      run-receives ops b (step port same any (releases m) u).0 n
        (step-receives (releases m) ops b u n h)
  run-receives (client_closes ep ∷ ops) b u n h =
      run-receives ops b (step port same any (client_closes ep) u).0 n
        (step-receives (client_closes ep) ops b u n h)
  run-receives (client_writes v ∷ ops) b u n h =
      run-receives ops b (step port same any (client_writes v) u).0 n
        (step-receives (client_writes v) ops b u n h)
  run-receives (sent error len ∷ ops) b u n h =
      run-receives ops b (step port same any (sent error len) u).0 n
        (step-receives (sent error len) ops b u n h)
  run-receives (received error sender bytes ∷ ops) b u n h =
      run-receives ops (if error then false else b)
        (step port same any (received error sender bytes) u).0 n
        (step-receives (received error sender bytes) ops b u n h)
