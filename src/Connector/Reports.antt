-- ===== src/Connector/Reports.antt =====
-- Which transports are reported.
use dep_srpc.Base.{
  ℕ, zero, suc, ◌+◌, ◌≡◌, refl, ap, Bool, true, false, if◌then◌else◌, List, [], ◌∷◌,
}
use dep_srpc.Connector.{
  Connector, Event, on_connect, on_connect_error, on_close, client_open, client_close,
  async_connect, Op, connects, closes, sets_endpoint, completes, new_connector, connect, close,
  set_endpoint, handle_connect, take_connect, complete, step, run,
}

module _ {ℓ} {E : Type ℓ} where
  -- `connect` is called only while no connect is outstanding, and what completes is outstanding.
  abbrev pub OneAtATime : Bool → List (Op E) → Type 0
  OneAtATime busy [] = Unit
  OneAtATime true (connects ∷ ops) = ⊥
  OneAtATime false (connects ∷ ops) = OneAtATime true ops
  OneAtATime busy (closes ∷ ops) = OneAtATime busy ops
  OneAtATime busy (sets_endpoint ep ∷ ops) = OneAtATime busy ops
  OneAtATime true (completes zero error ∷ ops) = OneAtATime false ops
  OneAtATime true (completes (suc k) error ∷ ops) = ⊥
  OneAtATime false (completes k error ∷ ops) = ⊥

  -- The calls that a history must make: each connect is of a new transport to the endpoint set
  -- last, and its end reports that transport, or an error; `n` transports were made, and `ep` was
  -- set.
  unfoldable pub expected : ℕ → E → List (Op E) → List (Event E)
  expected n ep [] = []
  expected n ep (connects ∷ ops) =
      client_open (n + 1) ep ∷ async_connect (n + 1) ep ∷ expected (n + 1) ep ops
  expected n ep (closes ∷ ops) = on_close ∷ client_close n ∷ expected n ep ops
  expected n ep (sets_endpoint to ∷ ops) = expected n to ops
  expected n ep (completes k true ∷ ops) = on_connect_error ∷ expected n ep ops
  expected n ep (completes k false ∷ ops) = on_connect n ∷ expected n ep ops

  at : ℕ → E → Bool → Connector E
  at n ep busy = record {
    client = n;
    ep = ep;
    connecting = if busy then n ∷ [] else [];
    next_client = n + 1;
  }

  run-at :
      (ops : List (Op E)) (n : ℕ) (ep : E) (busy : Bool)
      → OneAtATime busy ops
      → (run ops (at n ep busy)).1 ≡ expected n ep ops
  unfolding run step connect close set_endpoint handle_connect take_connect complete expected at
  run-at [] n ep busy h = refl
  run-at (connects ∷ ops) n ep true h = absurd h
  run-at (connects ∷ ops) n ep false h =
      ap (λ es. client_open (n + 1) ep ∷ async_connect (n + 1) ep ∷ es)
        (run-at ops (n + 1) ep true h)
  run-at (closes ∷ ops) n ep busy h =
      ap (λ es. on_close ∷ client_close n ∷ es) (run-at ops n ep busy h)
  run-at (sets_endpoint to ∷ ops) n ep busy h = run-at ops n to busy h
  run-at (completes zero true ∷ ops) n ep true h =
      ap (λ es. on_connect_error ∷ es) (run-at ops n ep false h)
  run-at (completes zero false ∷ ops) n ep true h =
      ap (λ es. on_connect n ∷ es) (run-at ops n ep false h)
  run-at (completes (suc k) error ∷ ops) n ep true h = absurd h
  run-at (completes k error ∷ ops) n ep false h = absurd h

  -- From a new connector, where `connect` is not called before the last one has ended: each connect
  -- is of a new transport, to the endpoint set last, and its end reports that transport or the
  -- error, once; `close` closes the transport made last.
  pub run-expected :
      (ep : E) (ops : List (Op E))
      → OneAtATime false ops
      → (run ops (new_connector ep)).1 ≡ expected 0 ep ops
  unfolding new_connector at
  run-expected ep ops h = run-at ops 0 ep false h
