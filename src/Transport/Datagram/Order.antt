-- ===== src/Transport/Datagram/Order.antt =====
-- The log of a history does not depend on how posting and sending interleave.
use dep_srpc.Base.{
  ℕ, suc, ◌≡◌, refl, ap, sym, ◌∙◌, arith, Bool, true, false, ◌==◌, if◌then◌else◌, Option, none,
  some,
}
use dep_srpc.Base.{List, [], ◌∷◌, ◌++◌, length, length-append, append_assoc, append-nil}
use dep_srpc.Transport.Datagram.{
  QueueValue, Handle, write_handle, write_to_handle, Receive, async_receive, async_receive_from,
  Datagram, new_datagram, Event, async_send, async_send_to, Op, write_to_queue, sent, reads, closes,
  reads_from, sets_endpoint, set_endpoint, received, precall, postcall, write_errors, read,
  read_from, read_handler, receive, close_unsafe, step, run,
}
use dep_srpc.Transport.Datagram.Log.{
  writing, posted, completions, Answered, writing-append, handle_of, outstanding, start, finish,
  in_order, resume, state_at, front, started, complete-finish, write_to_queue_impl-started,
}
use mathlib.Core.Path.{subst}

module _ {ℓ} {E : Type ℓ} (port : E → ℕ) where
  writing-precall :
      (m : List ℕ) (to : E) (o : Option ℕ)
      → let v : QueueValue E = record { message = m; to = to; cback = o } in
        writing (precall v) ≡ precall v
  unfolding writing precall
  writing-precall m to none = refl
  writing-precall m to (some k) = refl

  writing-postcall :
      (m : List ℕ) (to : E) (o : Option ℕ) (error : Bool) (len : ℕ)
      → let v : QueueValue E = record { message = m; to = to; cback = o } in
        writing (postcall v error len) ≡ postcall v error len
  unfolding writing postcall
  writing-postcall m to none error len = refl
  writing-postcall m to (some k) error len = refl

  writing-write_errors :
      (h : Handle) (v : QueueValue E) (error : Bool)
      → writing (write_errors h v error) ≡ write_errors h v error
  unfolding writing write_errors
  writing-write_errors write_handle v true = refl
  writing-write_errors write_handle v false = refl
  writing-write_errors write_to_handle v true = refl
  writing-write_errors write_to_handle v false = refl

  writing_both :
      (xs ys : List (Event E)) → writing xs ≡ xs → writing ys ≡ ys → writing (xs ++ ys) ≡ xs ++ ys
  writing_both xs ys f g = writing-append xs ys ∙ ap (λ t. t ++ writing ys) f ∙ ap (λ t. xs ++ t) g

  send_writing :
      (b : Bool) (m : List ℕ) (to : E)
      → let es : List (Event E) = (if b then async_send m else async_send_to m to) ∷ [] in
        writing es ≡ es
  unfolding writing
  send_writing true m to = refl
  send_writing false m to = refl

  writing-start : (v : QueueValue E) → writing (start port v) ≡ start port v
  unfolding start
  writing-start v =
      writing_both (precall v) _ (writing-precall v.message v.to v.cback)
        (send_writing (port v.to == 0) v.message v.to)

  writing-finish : (v : QueueValue E) (c : Bool × ℕ) → writing (finish port v c) ≡ finish port v c
  unfolding finish
  writing-finish v c =
      writing_both (write_errors (handle_of port v) v c.0) (postcall v c.0 c.1)
        (writing-write_errors (handle_of port v) v c.0)
        (writing-postcall v.message v.to v.cback c.0 c.1)

  writing-front : (q : List (QueueValue E)) → writing (front port q) ≡ front port q
  unfolding front writing
  writing-front [] = refl
  writing-front (v ∷ q) = writing-start v

  writing-started :
      (q : List (QueueValue E)) (v : QueueValue E) → writing (started port q v) ≡ started port q v
  unfolding started writing
  writing-started [] v = writing-start v
  writing-started (u ∷ q) v = refl

  start-resume :
      (v : QueueValue E) (q vs : List (QueueValue E)) (cs : List (Bool × ℕ))
      → start port v ++ resume port (v ∷ q) vs cs ≡ in_order port (v ∷ (q ++ vs)) cs
  unfolding resume in_order
  start-resume v q vs [] = append-nil (start port v)
  start-resume v q vs (c ∷ cs) = refl

  -- A datagram that is posted, and one whose send ends.
  post-resume :
      (q : List (QueueValue E)) (v : QueueValue E) (vs : List (QueueValue E)) (cs : List (Bool × ℕ))
      → started port q v ++ resume port (q ++ v ∷ []) vs cs ≡ resume port q (v ∷ vs) cs
  unfolding started resume
  post-resume [] v vs cs = start-resume v [] vs cs
  post-resume (u ∷ q) v vs [] = refl
  post-resume (u ∷ q) v vs (c ∷ cs) =
      ap (λ t. finish port u c ++ in_order port t cs) (append_assoc q (v ∷ []) vs)

  end-resume :
      (q vs : List (QueueValue E)) (cs : List (Bool × ℕ))
      → front port q ++ resume port q vs cs ≡ in_order port (q ++ vs) cs
  unfolding front resume
  end-resume [] vs cs = refl
  end-resume (v ∷ q) vs cs = start-resume v q vs cs

  run-step :
      (op : Op E) (ops : List (Op E)) (s s1 : Datagram E) (es : List (Event E))
      → step port op s ≡ (s1, es)
      → writing (run port (op ∷ ops) s).1 ≡ writing es ++ writing (run port ops s1).1
  unfolding run
  run-step op ops s s1 es h = rw h (writing-append es (run port ops s1).1)

  -- A receive that ends, and a close, leave the queue alone.
  abbrev Quiet : List (QueueValue E) → Datagram E × List (Event E) → Type ℓ
  Quiet q r =
      (t : E × List Receive × Bool) × (r.0 ≡ state_at port q t.0 t.1 t.2) × (writing r.1 ≡ [])

  read_handler-quiet :
      (error : Bool) (bytes : List ℕ) → writing {E = E} (read_handler error bytes) ≡ []
  unfolding writing read_handler
  read_handler-quiet true bytes = refl
  read_handler-quiet false bytes = refl

  receive-Quiet :
      (error : Bool) (sender : E) (bytes : List ℕ) (q : List (QueueValue E)) (ep : E)
      (rs : List Receive) (a : Bool)
      → Quiet q (receive error sender bytes (state_at port q ep rs a))
  unfolding receive state_at writing
  receive-Quiet error sender bytes q ep [] a = ((ep, [], a), refl, refl)
  receive-Quiet error sender bytes q ep (async_receive ∷ rs) a =
      ((ep, rs, a), refl, read_handler-quiet error bytes)
  receive-Quiet error sender bytes q ep (async_receive_from ∷ rs) a =
      ((sender, rs, a), refl, read_handler-quiet error bytes)

  close-Quiet :
      (q : List (QueueValue E)) (ep : E) (rs : List Receive) (a : Bool)
      → Quiet q (close_unsafe (state_at port q ep rs a))
  unfolding close_unsafe state_at writing
  close-Quiet q ep rs true = ((ep, rs, false), refl, refl)
  close-Quiet q ep rs false = ((ep, rs, false), refl, refl)

  run_quiet :
      (op : Op E) (ops : List (Op E)) (s t : Datagram E)
      → (step port op s).0 ≡ t
      → writing (step port op s).1 ≡ []
      → writing (run port (op ∷ ops) s).1 ≡ writing (run port ops t).1
  run_quiet op ops s t state quiet =
      run-step op ops s (step port op s).0 (step port op s).1 refl
      ∙ ap (λ es. es ++ writing (run port ops (step port op s).0).1) quiet
      ∙ ap (λ u. writing (run port ops u).1) state

  run_calls :
      (op : Op E) (ops : List (Op E)) (s t : Datagram E) (es log : List (Event E))
      → step port op s ≡ (t, es)
      → writing es ≡ es
      → writing (run port ops t).1 ≡ log
      → writing (run port (op ∷ ops) s).1 ≡ es ++ log
  run_calls op ops s t es log h same rest =
      run-step op ops s t es h
      ∙ ap (λ x. x ++ writing (run port ops t).1) same
      ∙ ap (λ x. es ++ x) rest

  read-state :
      (q : List (QueueValue E)) (ep : E) (rs : List Receive) (a : Bool)
      → read (state_at port q ep rs a) ≡ state_at port q ep (rs ++ async_receive ∷ []) a
  unfolding read state_at
  read-state q ep rs a = refl

  read_from-state :
      (q : List (QueueValue E)) (to ep : E) (rs : List Receive) (a : Bool)
      → read_from to (state_at port q ep rs a)
        ≡ state_at port q to (rs ++ async_receive_from ∷ []) a
  unfolding read_from state_at
  read_from-state q to ep rs a = refl

  set_endpoint-state :
      (q : List (QueueValue E)) (val ep : E) (rs : List Receive) (a : Bool)
      → set_endpoint val (state_at port q ep rs a) ≡ state_at port q val rs a
  unfolding set_endpoint state_at
  set_endpoint-state q val ep rs a = refl

  length-snoc : (q : List (QueueValue E)) (v : QueueValue E) → length (q ++ v ∷ []) ≡ suc (length q)
  length-snoc q v = ground (arith, length-append q (v ∷ []))

  -- The induction, from a queue whose front is started.
  run_at :
      (ops : List (Op E)) (q : List (QueueValue E)) (ep : E) (rs : List Receive) (a : Bool)
      → Answered ops (length q)
      → writing (run port ops (state_at port q ep rs a)).1
        ≡ resume port q (posted ops) (completions ops)
  unfolding run posted completions step writing resume in_order
  run_at [] [] ep rs a h = refl
  run_at [] (v ∷ q) ep rs a h = refl
  run_at (write_to_queue v ∷ ops) q ep rs a h =
      run_calls (write_to_queue v) ops (state_at port q ep rs a)
        (state_at port (q ++ v ∷ []) ep rs a) (started port q v)
        (resume port (q ++ v ∷ []) (posted ops) (completions ops))
        (write_to_queue_impl-started port v q ep rs a) (writing-started q v)
        (run_at ops (q ++ v ∷ []) ep rs a (subst (λ n. Answered ops n) (sym (length-snoc q v)) h))
      ∙ post-resume q v (posted ops) (completions ops)
  run_at (sent error len ∷ ops) [] ep rs a h = absurd h
  run_at (sent error len ∷ ops) (v ∷ q) ep rs a h =
      run_calls (sent error len) ops (state_at port (v ∷ q) ep rs a) (state_at port q ep rs a)
        (finish port v (error, len) ++ front port q) (resume port q (posted ops) (completions ops))
        (complete-finish port v q ep rs a (error, len))
        (writing_both (finish port v (error, len)) (front port q) (writing-finish v (error, len))
          (writing-front q))
        (run_at ops q ep rs a h)
      ∙ append_assoc (finish port v (error, len)) (front port q) _
      ∙ ap (λ t. finish port v (error, len) ++ t) (end-resume q (posted ops) (completions ops))
  run_at (reads ∷ ops) q ep rs a h =
      run_quiet reads ops (state_at port q ep rs a)
        (state_at port q ep (rs ++ async_receive ∷ []) a) (read-state q ep rs a) refl
      ∙ run_at ops q ep (rs ++ async_receive ∷ []) a h
  run_at (closes ∷ ops) q ep rs a h =
      let (t, state, quiet) = close-Quiet q ep rs a in
      run_quiet closes ops (state_at port q ep rs a) (state_at port q t.0 t.1 t.2) state quiet
      ∙ run_at ops q t.0 t.1 t.2 h
  run_at (reads_from to ∷ ops) q ep rs a h =
      run_quiet (reads_from to) ops (state_at port q ep rs a)
        (state_at port q to (rs ++ async_receive_from ∷ []) a) (read_from-state q to ep rs a) refl
      ∙ run_at ops q to (rs ++ async_receive_from ∷ []) a h
  run_at (sets_endpoint val ∷ ops) q ep rs a h =
      run_quiet (sets_endpoint val) ops (state_at port q ep rs a) (state_at port q val rs a)
        (set_endpoint-state q val ep rs a) refl
      ∙ run_at ops q val rs a h
  run_at (received error sender bytes ∷ ops) q ep rs a h =
      let (t, state, quiet) = receive-Quiet error sender bytes q ep rs a in
      run_quiet (received error sender bytes) ops (state_at port q ep rs a)
        (state_at port q t.0 t.1 t.2) state quiet
      ∙ run_at ops q t.0 t.1 t.2 h

  -- In a history from a new object in which no send ends that was not started, with reads, receives
  -- and a close anywhere: the datagrams go to the socket in the order in which they were posted,
  -- each once, and only when the one before it has ended; its `pre_call` runs just before, and its
  -- `post_call` once, with the error and the length of its own send, after the error's reports. How
  -- posting and sending interleave makes no difference.
  pub run-in_order :
      (any : E) (ops : List (Op E))
      → Answered ops 0
      → writing (run port ops (new_datagram any)).1 ≡ in_order port (posted ops) (completions ops)
  unfolding new_datagram state_at outstanding resume
  run-in_order any ops h = run_at ops [] any [] true h
