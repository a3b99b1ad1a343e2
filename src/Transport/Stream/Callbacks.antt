-- ===== src/Transport/Stream/Callbacks.antt =====
-- The callbacks of the messages that a transport is asked to write, the `post_call` of each; a
-- stream never calls `pre_call`.
use dep_srpc.Base.{
  ℕ, ◌+◌, ◌-◌, ◌≡◌, refl, ap, sym, ◌∙◌, arith, Bool, true, false, ltb, if◌then◌else◌, Bool-cases,
  inl, inr, Option, none, some, List, [], ◌∷◌, ◌++◌, length, drop, append_assoc, append-nil,
}
use dep_srpc.Transport.Stream.{
  QueueValue, Write, Event, sent, post_call, write_error, on_close, Stream, async_write_at,
  async_write, postcall, next_message, write_handler, write_impl, close_unsafe, Op, writes,
  completes, closes, complete, step, run,
}
use dep_srpc.Transport.Stream.OneWrite.{OneWriteOn, OneWrite, run-OneWrite}

-- The callbacks that ran, those of the messages in the queue, and those of the messages posted.
unfoldable pub called : List Event → List ℕ
called [] = []
called (post_call k e n ∷ es) = k ∷ called es
called (_ ∷ es) = called es

unfoldable pub callback : Option ℕ → List ℕ
callback none = []
callback (some k) = k ∷ []

unfoldable pub waiting : List QueueValue → List ℕ
waiting [] = []
waiting (v ∷ vs) = callback v.cback ++ waiting vs

unfoldable pub posted : List Op → List ℕ
posted [] = []
posted (writes v ∷ ops) = callback v.cback ++ posted ops
posted (_ ∷ ops) = posted ops

called-append : (xs ys : List Event) → called (xs ++ ys) ≡ called xs ++ called ys
unfolding called
called-append [] ys = refl
called-append (post_call k e n ∷ xs) ys = ap (λ t. k ∷ t) (called-append xs ys)
called-append (sent d ∷ xs) ys = called-append xs ys
called-append (write_error ∷ xs) ys = called-append xs ys
called-append (on_close ∷ xs) ys = called-append xs ys

waiting-append : (xs ys : List QueueValue) → waiting (xs ++ ys) ≡ waiting xs ++ waiting ys
unfolding waiting
waiting-append [] ys = refl
waiting-append (v ∷ xs) ys =
    rw (waiting-append xs ys) (sym (append_assoc (callback v.cback) (waiting xs) (waiting ys)))

pub async_write_at-queue :
    (d : List ℕ) (size total : ℕ) (s : Stream)
    → (async_write_at d size total s).write_queue ≡ s.write_queue
unfolding async_write_at
async_write_at-queue d size total s = elim (Bool-cases s.active) [
  | inl e ↦ rw e refl
  | inr e ↦ rw e refl
]

pub async_write-queue :
    (q : List QueueValue) (a : Bool) (p : List Write)
    → (async_write (record { write_queue = q; active = a; pending = p })).write_queue ≡ q
unfolding async_write
async_write-queue [] a p = refl
async_write-queue (v ∷ vs) a p =
    async_write_at-queue v.message (length v.message) 0
      (record { write_queue = v ∷ vs; active = a; pending = p })

called-postcall :
    (v : QueueValue) (e : Bool) (n : ℕ) (es : List Event)
    → called es ≡ []
    → called (postcall v e n ++ es) ≡ callback v.cback
unfolding postcall
called-postcall v e n es h = front v.cback
  where
    front :
        (c : Option ℕ)
        → called (elim c as (λ _. List Event) [ none ↦ [] | some k ↦ post_call k e n ∷ [] ] ++ es)
          ≡ callback c
    front none = unfold callback in h
    front (some k) = unfold called callback in rw h refl

handler-callbacks :
    (error : Bool) (bytes : ℕ) (w : Write) (q : List QueueValue) (a : Bool) (p : List Write)
    → let s : Stream = record { write_queue = q; active = a; pending = p } in
      called (write_handler error bytes w s).1
        ++ waiting (write_handler error bytes w s).0.write_queue
      ≡ waiting q
unfolding write_handler
handler-callbacks error bytes w [] a p = unfold called in refl
handler-callbacks true bytes w (v ∷ vs) a p =
    unfold next_message waiting in
    rw
      (
        async_write-queue vs a p,
        called-postcall v true bytes (write_error ∷ []) (unfold called in refl),
      )
      refl
handler-callbacks false bytes w (v ∷ vs) a p = elim (Bool-cases (ltb bytes w.size)) [
  | inl e ↦
      let s : Stream = record { write_queue = v ∷ vs; active = a; pending = p } in
      rw
        (
          e,
          async_write_at-queue (drop (w.total + bytes) v.message)
              (length v.message - (w.total + bytes)) (w.total + bytes) s,
        )
        (unfold called in refl)
  | inr e ↦
      unfold next_message waiting in
      rw (e, async_write-queue vs a p)
        (ap (λ t. t ++ waiting vs)
          (ap called (sym (append-nil (postcall v false bytes)))
            ∙ called-postcall v false bytes [] (unfold called in refl)))
]

complete-callbacks :
    (error : Bool) (bytes : ℕ) (q : List QueueValue) (a : Bool) (p : List Write)
    → let s : Stream = record { write_queue = q; active = a; pending = p } in
      called (complete error bytes s).1 ++ waiting (complete error bytes s).0.write_queue
      ≡ waiting q
unfolding complete called
complete-callbacks error bytes q a [] = refl
complete-callbacks error bytes q a (w ∷ ws) = handler-callbacks error bytes w q a ws

write_impl-queue :
    (v : QueueValue) (q : List QueueValue) (a : Bool) (p : List Write)
    → (write_impl v (record { write_queue = q; active = a; pending = p })).write_queue ≡ q ++ v ∷ []
unfolding write_impl
write_impl-queue v [] a p = async_write-queue (v ∷ []) a p
write_impl-queue v (u ∷ us) a p = refl

close_unsafe-callbacks :
    (s : Stream)
    → (called (close_unsafe s).1 ≡ []) × ((close_unsafe s).0.write_queue ≡ s.write_queue)
unfolding close_unsafe called
close_unsafe-callbacks s = elim (Bool-cases s.active) [
  | inl e ↦ rw e (refl, refl)
  | inr e ↦ rw e (refl, refl)
]

step-callbacks :
    (op : Op) (ops : List Op) (s : Stream)
    → called (step op s).1 ++ (waiting (step op s).0.write_queue ++ posted ops)
      ≡ waiting s.write_queue ++ posted (op ∷ ops)
unfolding step posted
step-callbacks (writes v) ops s =
    let one : waiting (v ∷ []) ≡ callback v.cback =
      unfold waiting in append-nil (callback v.cback) in
    unfold called in
    rw
      (
        write_impl-queue v s.write_queue s.active s.pending,
        waiting-append s.write_queue (v ∷ []),
        one,
      )
      (append_assoc (waiting s.write_queue) (callback v.cback) (posted ops))
step-callbacks (completes error bytes) ops s =
    sym (
      append_assoc (called (complete error bytes s).1)
        (waiting (complete error bytes s).0.write_queue) (posted ops))
    ∙ ap (λ t. t ++ posted ops) (complete-callbacks error bytes s.write_queue s.active s.pending)
step-callbacks closes ops s = let (quiet, same) = close_unsafe-callbacks s in rw (quiet, same) refl

run-waiting :
    (ops : List Op) (s : Stream)
    → called (run ops s).1 ++ waiting (run ops s).0.write_queue
      ≡ waiting s.write_queue ++ posted ops
unfolding run
run-waiting [] s = unfold called posted in sym (append-nil (waiting s.write_queue))
run-waiting (op ∷ ops) s = rw (called-append (step op s).1 (run ops (step op s).0).1) (
    append_assoc (called (step op s).1) (called (run ops (step op s).0).1)
      (waiting (run ops (step op s).0).0.write_queue)
    ∙ ap (λ t. called (step op s).1 ++ t) (run-waiting ops (step op s).0)
    ∙ step-callbacks op ops s)

-- The callbacks that are still to run: none where the transport is active and the socket has no
-- write, and else those of the messages in the queue.
unfoldable pub owed : Stream → List ℕ
owed s = elim s.pending [
  | [] ↦ if s.active then [] else waiting s.write_queue
  | _ ∷ _ ↦ waiting s.write_queue
]

owed_waiting :
    (p : List Write) (q : List QueueValue) (a : Bool)
    → OneWriteOn p q a
    → owed (record { write_queue = q; active = a; pending = p }) ≡ waiting q
unfolding owed
owed_waiting [] [] true h = unfold waiting in refl
owed_waiting [] [] false h = refl
owed_waiting [] (v ∷ vs) true h = ground (arith, h)
owed_waiting [] (v ∷ vs) false h = refl
owed_waiting (w ∷ ws) q a h = refl

-- From a state in which the socket has the write of the front message, or none and the queue is
-- empty or the transport closed. In every history, with partial writes, errors and closes: the
-- callbacks that have run, and then those that are owed, are those that waited and then those of
-- the messages posted, in this order. So on an active transport whose socket has no write left,
-- exactly these callbacks have run, each as often as it was posted; otherwise those of the messages
-- still in the queue have not.
pub run-callbacks :
    (ops : List Op) (s : Stream)
    → OneWrite s
    → called (run ops s).1 ++ owed (run ops s).0 ≡ waiting s.write_queue ++ posted ops
run-callbacks ops s h =
    let t : Stream = (run ops s).0 in
    ap (λ k. called (run ops s).1 ++ k)
      (owed_waiting t.pending t.write_queue t.active (run-OneWrite ops s h))
    ∙ run-waiting ops s
