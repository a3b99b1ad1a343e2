-- ===== src/Listener/Accepting.antt =====
-- Which clients a TCP listener announces, and which accept its socket has.
use dep_srpc.Base.{ℕ, suc, ◌≡◌, refl, ap, Bool, true, false, List, [], ◌∷◌, ◌++◌}
use dep_srpc.Acceptor.Tcp
use dep_srpc.Acceptor.Tcp.{Tcp, new_tcp, tcp}
use dep_srpc.Listener.{
  Event, accept, accept_error, closed, socket, Impl, socket_calls, deliver, deliver_all, call_all,
  start, stop, release, Op, starts, stops, releases, accepted, create, step, run,
}

module _ {ℓ} {E : Type ℓ} where
  -- The announced clients, with their endpoints.
  unfoldable pub announced : List (Event E) → List (ℕ × E)
  announced [] = []
  announced (accept client ep ∷ es) = (client, ep) ∷ announced es
  announced (accept_error ∷ es) = announced es
  announced (closed ∷ es) = announced es
  announced (socket c ∷ es) = announced es

  -- A history after `start`, in which it is not called again.
  abbrev pub StartsNoMore : List (Op E) → Type 0
  StartsNoMore [] = Unit
  StartsNoMore (starts ∷ ops) = ⊥
  StartsNoMore (stops ∷ ops) = StartsNoMore ops
  StartsNoMore (releases ∷ ops) = StartsNoMore ops
  StartsNoMore (accepted error ep ∷ ops) = StartsNoMore ops

  -- The reference, while the accept for client `n` is outstanding: each accepted client until the
  -- first error, or until the listener has gone.
  unfoldable pub expected_clients : ℕ → List (Op E) → List (ℕ × E)
  expected_clients n [] = []
  expected_clients n (starts ∷ ops) = expected_clients n ops
  expected_clients n (stops ∷ ops) = expected_clients n ops
  expected_clients n (releases ∷ ops) = []
  expected_clients n (accepted true ep ∷ ops) = []
  expected_clients n (accepted false ep ∷ ops) = (n, ep) ∷ expected_clients (suc n) ops

  -- The accept of a listener that has gone: it completes once.
  unfoldable pub left_over : ℕ → List (Op E) → List ℕ
  left_over n [] = n ∷ []
  left_over n (starts ∷ ops) = left_over n ops
  left_over n (stops ∷ ops) = left_over n ops
  left_over n (releases ∷ ops) = left_over n ops
  left_over n (accepted error ep ∷ ops) = []

  unfoldable pub outstanding : ℕ → List (Op E) → List ℕ
  outstanding n [] = n ∷ []
  outstanding n (starts ∷ ops) = outstanding n ops
  outstanding n (stops ∷ ops) = outstanding n ops
  outstanding n (releases ∷ ops) = left_over n ops
  outstanding n (accepted true ep ∷ ops) = []
  outstanding n (accepted false ep ∷ ops) = outstanding (suc n) ops

  abbrev listener : E → Bool → Bool → ℕ → List ℕ → Impl (Tcp E)
  listener ep is_v6 alive next accepting = record {
    acceptor = record {
      ep = ep;
      is_v6 = is_v6;
      alive = alive;
      next_client = next;
      accepting = accepting;
    };
    alive = alive;
  }

  announced-append : (xs ys : List (Event E)) → announced (xs ++ ys) ≡ announced xs ++ announced ys
  unfolding announced
  announced-append [] ys = refl
  announced-append (accept n ep ∷ es) ys = ap (λ t. (n, ep) ∷ t) (announced-append es ys)
  announced-append (accept_error ∷ es) ys = announced-append es ys
  announced-append (closed ∷ es) ys = announced-append es ys
  announced-append (socket c ∷ es) ys = announced-append es ys

  -- Where no accept is outstanding, nothing more is announced.
  idle-silent :
      (ops : List (Op E)) (ep : E) (is_v6 alive : Bool) (next : ℕ)
      → StartsNoMore ops
      → let r = run ops (listener ep is_v6 alive next []) in
        (announced r.1 ≡ []) × (r.0.acceptor.accepting ≡ [])
  unfolding run step Tcp.complete stop release call_all deliver_all deliver announced tcp Tcp.close
      Tcp.release
  idle-silent [] ep is_v6 alive next h = (refl, refl)
  idle-silent (starts ∷ ops) ep is_v6 alive next h = absurd h
  idle-silent (stops ∷ ops) ep is_v6 true next h = idle-silent ops ep is_v6 true next h
  idle-silent (stops ∷ ops) ep is_v6 false next h = idle-silent ops ep is_v6 false next h
  idle-silent (releases ∷ ops) ep is_v6 alive next h = idle-silent ops ep is_v6 false next h
  idle-silent (accepted error from ∷ ops) ep is_v6 alive next h =
      idle-silent ops ep is_v6 alive next h

  gone-silent :
      (ops : List (Op E)) (ep : E) (is_v6 : Bool) (next n : ℕ)
      → StartsNoMore ops
      → let r = run ops (listener ep is_v6 false next (n ∷ [])) in
        (announced r.1 ≡ []) × (r.0.acceptor.accepting ≡ left_over n ops)
  unfolding run step Tcp.complete Tcp.handle_accept stop release call_all deliver_all deliver
      announced left_over tcp Tcp.close Tcp.release
  gone-silent [] ep is_v6 next n h = (refl, refl)
  gone-silent (starts ∷ ops) ep is_v6 next n h = absurd h
  gone-silent (stops ∷ ops) ep is_v6 next n h = gone-silent ops ep is_v6 next n h
  gone-silent (releases ∷ ops) ep is_v6 next n h = gone-silent ops ep is_v6 next n h
  gone-silent (accepted error from ∷ ops) ep is_v6 next n h = idle-silent ops ep is_v6 false next h

  waiting-announced :
      (ops : List (Op E)) (ep : E) (is_v6 : Bool) (n : ℕ)
      → StartsNoMore ops
      → let r = run ops (listener ep is_v6 true (suc n) (n ∷ [])) in
        (announced r.1 ≡ expected_clients n ops) × (r.0.acceptor.accepting ≡ outstanding n ops)
  unfolding run step Tcp.complete Tcp.handle_accept Tcp.start_accept socket_calls stop release
      call_all deliver_all deliver announced expected_clients outstanding tcp Tcp.close Tcp.release
  waiting-announced [] ep is_v6 n h = (refl, refl)
  waiting-announced (starts ∷ ops) ep is_v6 n h = absurd h
  waiting-announced (stops ∷ ops) ep is_v6 n h = waiting-announced ops ep is_v6 n h
  waiting-announced (releases ∷ ops) ep is_v6 n h = gone-silent ops ep is_v6 (suc n) n h
  waiting-announced (accepted true from ∷ ops) ep is_v6 n h =
      idle-silent ops ep is_v6 true (suc n) h
  waiting-announced (accepted false from ∷ ops) ep is_v6 n h =
      let (clients, accepts) = waiting-announced ops ep is_v6 (suc n) h in
      (ap (λ t. (n, from) ∷ t) clients, accepts)

  -- A new TCP listener is started once. Until the first accept error, or until the listener has
  -- gone, each accepted client is announced once, in the order of the accepts, `stop` or not, and
  -- the socket has exactly one accept, for the next client. After an accept error it has none and
  -- nobody is announced any more; nor once the listener has gone, whose last accept completes
  -- without a call.
  pub run-announced :
      (ep : E) (is_v6 : Bool) (ops : List (Op E))
      → StartsNoMore ops
      → let r = run (starts ∷ ops) (create ep is_v6) in
        (announced r.1 ≡ expected_clients 0 ops) × (r.0.acceptor.accepting ≡ outstanding 0 ops)
  unfolding run step start create new_tcp Tcp.open_ Tcp.bind Tcp.start_accept socket_calls announced
      tcp
  run-announced ep is_v6 ops h = waiting-announced ops ep is_v6 0 h
