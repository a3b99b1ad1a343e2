-- ===== src/Tunnel/Point/Writing.antt =====
-- What the device gets, and that no message is left behind.
use dep_srpc.Base.{
  ℕ, ◌+◌, ◌≡◌, refl, ap, sym, ◌∙◌, arith, Bool, true, false, ltb, ◌==◌, Bool-cases, inl, inr,
  Option, none, some, List, [], ◌∷◌, ◌++◌, length, length-drop, take, drop, take-append-drop,
  take_all, append_assoc, append-nil,
}
use dep_srpc.Transport.Stream.OneWrite.{drop-drop}
use dep_srpc.Tunnel.Point.{
  QueueValue, Write, Event, sent, on_read, success, write_error, read_error, async_read_some,
  stream_close, Point, Op, writes, completes, reads, closes, received, async_write_at, success_call,
  close_impl, async_read, read_handler, receive, transformed, async_write, write_handler,
  write_impl, complete, step, run,
}

unfoldable pub sent_bytes : List Event → List ℕ
sent_bytes [] = []
sent_bytes (sent d ∷ es) = d ++ sent_bytes es
sent_bytes (on_read d ∷ es) = sent_bytes es
sent_bytes (success k e ∷ es) = sent_bytes es
sent_bytes (write_error ∷ es) = sent_bytes es
sent_bytes (read_error ∷ es) = sent_bytes es
sent_bytes (async_read_some ∷ es) = sent_bytes es
sent_bytes (stream_close ∷ es) = sent_bytes es

sent_bytes-append : (xs ys : List Event) → sent_bytes (xs ++ ys) ≡ sent_bytes xs ++ sent_bytes ys
unfolding sent_bytes
sent_bytes-append [] ys = refl
sent_bytes-append (sent d ∷ xs) ys =
    rw (sent_bytes-append xs ys) (sym (append_assoc d (sent_bytes xs) (sent_bytes ys)))
sent_bytes-append (on_read d ∷ xs) ys = sent_bytes-append xs ys
sent_bytes-append (success k e ∷ xs) ys = sent_bytes-append xs ys
sent_bytes-append (write_error ∷ xs) ys = sent_bytes-append xs ys
sent_bytes-append (read_error ∷ xs) ys = sent_bytes-append xs ys
sent_bytes-append (async_read_some ∷ xs) ys = sent_bytes-append xs ys
sent_bytes-append (stream_close ∷ xs) ys = sent_bytes-append xs ys

sent_bytes-success_call : (v : QueueValue) (e : Bool) → sent_bytes (success_call v e) ≡ []
unfolding success_call
sent_bytes-success_call v e = front v.success_
  where
    front :
        (c : Option ℕ)
        → sent_bytes (elim c as (λ _. List Event) [ none ↦ [] | some k ↦ success k e ∷ [] ]) ≡ []
    front none = unfold sent_bytes in refl
    front (some k) = unfold sent_bytes in refl

-- One write is outstanding exactly where there are messages. It is for the front message, and its
-- buffer is what is left of that.
abbrev pub InStep : List Write → List QueueValue → Type 0
InStep [] [] = Unit
InStep [] (v ∷ vs) = ⊥
InStep (w ∷ []) (v ∷ vs) = (w.data_ ≡ drop w.total v.message_) × (w.length_ ≡ length w.data_)
InStep (w ∷ []) [] = ⊥
InStep (w ∷ x ∷ ws) q = ⊥

abbrev pub PointInStep : Point → Type 0
PointInStep s = InStep s.pending s.write_queue

abbrev point : List Write → List QueueValue → ℕ → Bool → Point
point p q r a = record { write_queue = q; pending = p; reading = r; active = a }

-- A history in which the device has no error.
abbrev pub NoErrors : List Op → Type 0
NoErrors [] = Unit
NoErrors (completes true n ∷ ops) = ⊥
NoErrors (completes false n ∷ ops) = NoErrors ops
NoErrors (writes v ∷ ops) = NoErrors ops
NoErrors (reads ∷ ops) = NoErrors ops
NoErrors (closes ∷ ops) = NoErrors ops
NoErrors (received e d ∷ ops) = NoErrors ops

-- A state that keeps the messages and the write of `s`, with events that are no bytes sent.
abbrev Aside : Point → Point × List Event → Type 0
Aside s r = (r.0.pending ≡ s.pending) × (r.0.write_queue ≡ s.write_queue) × (sent_bytes r.1 ≡ [])

close_impl-Aside : (s : Point) → Aside s (close_impl s)
unfolding close_impl sent_bytes
close_impl-Aside s = elim (Bool-cases s.active) [
  | inl e ↦ rw e (refl, refl, refl)
  | inr e ↦ rw e (refl, refl, refl)
]

receive-Aside : (error : Bool) (bytes : List ℕ) (s : Point) → Aside s (receive error bytes s)
unfolding receive read_handler async_read sent_bytes
receive-Aside true bytes s = elim (Bool-cases (s.reading == 0)) [
  | inl e ↦ rw e (refl, refl, refl)
  | inr e ↦ rw e (refl, refl, refl)
]
receive-Aside false bytes s = elim (Bool-cases (s.reading == 0)) [
  | inl e ↦ rw e (refl, refl, refl)
  | inr e ↦ rw e (refl, refl, refl)
]

module _ (opts : ℕ) (on_transform_message : List ℕ → List ℕ) where
  -- What the messages are written as.
  unfoldable pub written : List QueueValue → List ℕ
  written [] = []
  written (v ∷ vs) = transformed opts on_transform_message v.message_ ++ written vs

  unfoldable pub posted : List Op → List ℕ
  posted [] = []
  posted (writes v ∷ ops) = transformed opts on_transform_message v.message_ ++ posted ops
  posted (completes e n ∷ ops) = posted ops
  posted (reads ∷ ops) = posted ops
  posted (closes ∷ ops) = posted ops
  posted (received e d ∷ ops) = posted ops

  -- The rest of the front message, as it is written, and the others.
  unfoldable pub unsent : List Write → List QueueValue → List ℕ
  unsent [] q = []
  unsent (w ∷ ws) [] = []
  unsent (w ∷ ws) (v ∷ vs) = w.data_ ++ written vs

  abbrev pub unsent_of : Point → List ℕ
  unsent_of s = unsent s.pending s.write_queue

  written-append : (xs ys : List QueueValue) → written (xs ++ ys) ≡ written xs ++ written ys
  unfolding written
  written-append [] ys = refl
  written-append (v ∷ xs) ys = rw (written-append xs ys) (
      sym
        (append_assoc (transformed opts on_transform_message v.message_) (written xs) (written ys)))

  fresh-InStep :
      (q : List QueueValue) (r : ℕ) (a : Bool)
      → let s : Point = async_write opts on_transform_message (point [] q r a) in
        PointInStep s × (unsent_of s ≡ written q)
  unfolding async_write async_write_at unsent written
  fresh-InStep [] r a = (tt, refl)
  fresh-InStep (v ∷ vs) r a = ((refl, refl), refl)

  complete-InStep :
      (error : Bool) (n : ℕ) (p : List Write) (q : List QueueValue) (r : ℕ) (a : Bool)
      → InStep p q
      → PointInStep (complete opts on_transform_message error n (point p q r a)).0
  unfolding complete write_handler
  complete-InStep error n [] q r a h = h
  complete-InStep true n (w ∷ []) (v ∷ vs) r a h = (fresh-InStep vs r a).0
  complete-InStep false n (w ∷ []) (v ∷ vs) r a h = elim (Bool-cases (ltb n w.length_)) [
    | inl e ↦ unfold async_write_at in rw e (refl, sym (length-drop (w.total + n) v.message_))
    | inr e ↦ rw e ((fresh-InStep vs r a).0)
  ]
  complete-InStep error n (w ∷ []) [] r a h = absurd h
  complete-InStep error n (w ∷ x ∷ ws) q r a h = absurd h

  write_impl-InStep :
      (v : QueueValue) (p : List Write) (q : List QueueValue) (r : ℕ) (a : Bool)
      → InStep p q
      → let s : Point = write_impl opts on_transform_message v (point p q r a) in
        PointInStep s
        × (unsent_of s ≡ unsent p q ++ transformed opts on_transform_message v.message_)
  unfolding write_impl unsent
  write_impl-InStep v [] [] r a h =
      let (in_step, bytes) = fresh-InStep (v ∷ []) r a in
      (
        in_step,
        bytes ∙ (unfold written in append-nil (transformed opts on_transform_message v.message_)),
      )
  write_impl-InStep v [] (u ∷ us) r a h = absurd h
  write_impl-InStep v (w ∷ []) (u ∷ us) r a h =
      let one : written (v ∷ []) ≡ transformed opts on_transform_message v.message_ =
        unfold written in append-nil (transformed opts on_transform_message v.message_) in
      (
        h,
        rw (written-append us (v ∷ []), one)
            (sym (
              append_assoc w.data_ (written us)
                (transformed opts on_transform_message v.message_))),
      )
  write_impl-InStep v (w ∷ []) [] r a h = absurd h
  write_impl-InStep v (w ∷ x ∷ ws) q r a h = absurd h

  complete-bytes :
      (n : ℕ) (p : List Write) (q : List QueueValue) (r : ℕ) (a : Bool)
      → InStep p q
      → let c : Point × List Event = complete opts on_transform_message false n (point p q r a) in
        sent_bytes c.1 ++ unsent_of c.0 ≡ unsent p q
  unfolding complete write_handler
  complete-bytes n [] q r a h = unfold sent_bytes unsent in refl
  complete-bytes n (w ∷ []) (v ∷ vs) r a (d, l) = elim (Bool-cases (ltb n w.length_)) [
    | inl e ↦
        let left : drop (w.total + n) v.message_ ≡ drop n w.data_ =
          sym (rw d (drop-drop w.total n v.message_)) in
        unfold async_write_at sent_bytes unsent in
        rw (e, left)
          (rw append-nil (
            sym (append_assoc (take n w.data_) (drop n w.data_) (written vs))
            ∙ ap (λ t. t ++ written vs) (take-append-drop n w.data_)))
    | inr e ↦
        let whole : take n w.data_ ≡ w.data_ = take_all n w.data_ (ground arith) in
        unfold sent_bytes unsent in
        rw (e, whole, sent_bytes-success_call v false)
          (rw (append-nil w.data_) (ap (λ t. w.data_ ++ t) ((fresh-InStep vs r a).1)))
  ]
  complete-bytes n (w ∷ []) [] r a h = absurd h
  complete-bytes n (w ∷ x ∷ ws) q r a h = absurd h

  Aside-InStep : (s : Point) (c : Point × List Event) → Aside s c → PointInStep s → PointInStep c.0
  Aside-InStep s c (same_p, same_q, silent) h = rw (same_p, same_q) h

  Aside-bytes :
      (s : Point) (c : Point × List Event)
      → Aside s c
      → sent_bytes c.1 ++ unsent_of c.0 ≡ unsent_of s
  Aside-bytes s c (same_p, same_q, silent) = rw (silent, same_p, same_q) refl

  step-InStep :
      (op : Op) (s : Point) → PointInStep s → PointInStep (step opts on_transform_message op s).0
  unfolding step
  step-InStep (writes v) s h = (write_impl-InStep v s.pending s.write_queue s.reading s.active h).0
  step-InStep (completes e n) s h = complete-InStep e n s.pending s.write_queue s.reading s.active h
  step-InStep reads s h = unfold async_read in h
  step-InStep closes s h = Aside-InStep s (close_impl s) (close_impl-Aside s) h
  step-InStep (received e d) s h = Aside-InStep s (receive e d s) (receive-Aside e d s) h

  -- From a state in which one write is outstanding exactly where there are messages, for what is
  -- left of the front one: in every history, with partial writes, errors, reads and closes at any
  -- moment, this is so again at the end, and the next completion goes on with the queue.
  run-InStep :
      (ops : List Op) (s : Point)
      → PointInStep s
      → PointInStep (run opts on_transform_message ops s).0
  unfolding run
  run-InStep [] s h = h
  run-InStep (op ∷ ops) s h =
      run-InStep ops (step opts on_transform_message op s).0 (step-InStep op s h)

  -- One operation: the bytes sent and those to be sent are those to be sent before it, and the new
  -- ones.
  step-bytes :
      (op : Op) (ops : List Op) (s : Point)
      → NoErrors (op ∷ ops)
      → PointInStep s
      → let c : Point × List Event = step opts on_transform_message op s in
        sent_bytes c.1 ++ (unsent_of c.0 ++ posted ops) ≡ unsent_of s ++ posted (op ∷ ops)
  unfolding step posted
  step-bytes (writes v) ops s u h =
      let (in_step, bytes) = write_impl-InStep v s.pending s.write_queue s.reading s.active h in
      unfold sent_bytes in
      rw bytes
        (append_assoc (unsent_of s) (transformed opts on_transform_message v.message_) (posted ops))
  step-bytes (completes true n) ops s u h = absurd u
  step-bytes (completes false n) ops s u h =
      let c : Point × List Event = complete opts on_transform_message false n s in
      sym (append_assoc (sent_bytes c.1) (unsent_of c.0) (posted ops))
      ∙ ap (λ t. t ++ posted ops) (complete-bytes n s.pending s.write_queue s.reading s.active h)
  step-bytes reads ops s u h = unfold async_read sent_bytes in refl
  step-bytes closes ops s u h =
      let c : Point × List Event = close_impl s in
      sym (append_assoc (sent_bytes c.1) (unsent_of c.0) (posted ops))
      ∙ ap (λ t. t ++ posted ops) (Aside-bytes s c (close_impl-Aside s))
  step-bytes (received e d) ops s u h =
      let c : Point × List Event = receive e d s in
      sym (append_assoc (sent_bytes c.1) (unsent_of c.0) (posted ops))
      ∙ ap (λ t. t ++ posted ops) (Aside-bytes s c (receive-Aside e d s))

  rest_NoErrors : (op : Op) (ops : List Op) → NoErrors (op ∷ ops) → NoErrors ops
  rest_NoErrors (writes v) ops u = u
  rest_NoErrors (completes true n) ops u = absurd u
  rest_NoErrors (completes false n) ops u = u
  rest_NoErrors reads ops u = u
  rest_NoErrors closes ops u = u
  rest_NoErrors (received e d) ops u = u

  -- From a state in which one write is outstanding exactly where there are messages, in every
  -- history without errors of the device, with partial writes, reads and closes at any moment: the
  -- bytes that the device took, and then those still to be written, are those that were to be
  -- written and then the posted messages, each as `opts` and `on_transform_message` make it once,
  -- in this order.
  pub run-posted :
      (ops : List Op) (s : Point)
      → NoErrors ops
      → PointInStep s
      → let c : Point × List Event = run opts on_transform_message ops s in
        sent_bytes c.1 ++ unsent_of c.0 ≡ unsent_of s ++ posted ops
  unfolding run
  run-posted [] s u h = unfold sent_bytes posted in sym (append-nil (unsent_of s))
  run-posted (op ∷ ops) s u h =
      let c : Point × List Event = step opts on_transform_message op s in
      let rest : Point × List Event = run opts on_transform_message ops c.0 in
      rw (sent_bytes-append c.1 rest.1) (
        append_assoc (sent_bytes c.1) (sent_bytes rest.1) (unsent_of rest.0)
        ∙ ap (λ t. sent_bytes c.1 ++ t)
            (run-posted ops c.0 (rest_NoErrors op ops u) (step-InStep op s h))
        ∙ step-bytes op ops s u h)
