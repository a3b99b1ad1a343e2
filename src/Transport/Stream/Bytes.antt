-- ===== src/Transport/Stream/Bytes.antt =====
-- The bytes in the order of the messages.
use dep_srpc.Base.{
  ℕ, ◌+◌, ◌≡◌, refl, ap, sym, ◌∙◌, arith, Bool, true, false, ltb, Bool-cases, inl, inr, Option,
  none, some, List, [], ◌∷◌, ◌++◌, take, drop, take-append-drop, take_all, append_assoc, append-nil,
}
use mathlib.Core.Path.{subst}
use dep_srpc.Transport.Stream.{
  QueueValue, Write, Event, sent, post_call, write_error, on_close, Stream, async_write_at,
  async_write, postcall, next_message, write_handler, write_impl, Op, writes, completes, closes,
  complete, step, run,
}
use dep_srpc.Transport.Stream.OneWrite.{
  OneWriteOn, OneWrite, drop-drop, write_impl-OneWrite, complete-OneWrite,
}

unfoldable pub messages : List QueueValue → List ℕ
messages [] = []
messages (v ∷ vs) = v.message ++ messages vs

-- The bytes still to be sent: the rest of the front message and all the others.
unfoldable pub unsent : List Write → List QueueValue → List ℕ
unsent [] q = []
unsent (w ∷ ws) [] = []
unsent (w ∷ ws) (v ∷ vs) = w.data_ ++ messages vs

unfoldable pub sent_bytes : List Event → List ℕ
sent_bytes [] = []
sent_bytes (sent d ∷ es) = d ++ sent_bytes es
sent_bytes (_ ∷ es) = sent_bytes es

-- The bytes of the messages that a history posts; a history without errors and closing.
unfoldable pub posted_bytes : List Op → List ℕ
posted_bytes [] = []
posted_bytes (writes v ∷ ops) = v.message ++ posted_bytes ops
posted_bytes (_ ∷ ops) = posted_bytes ops

abbrev pub Undisturbed : List Op → Type 0
Undisturbed [] = Unit
Undisturbed (writes v ∷ ops) = Undisturbed ops
Undisturbed (completes true n ∷ ops) = ⊥
Undisturbed (completes false n ∷ ops) = Undisturbed ops
Undisturbed (closes ∷ ops) = ⊥

abbrev pub unsent_of : Stream → List ℕ
unsent_of s = unsent s.pending s.write_queue

sent_bytes-append : (xs ys : List Event) → sent_bytes (xs ++ ys) ≡ sent_bytes xs ++ sent_bytes ys
unfolding sent_bytes
sent_bytes-append [] ys = refl
sent_bytes-append (sent d ∷ xs) ys =
    rw (sent_bytes-append xs ys) (sym (append_assoc d (sent_bytes xs) (sent_bytes ys)))
sent_bytes-append (post_call k e n ∷ xs) ys = sent_bytes-append xs ys
sent_bytes-append (write_error ∷ xs) ys = sent_bytes-append xs ys
sent_bytes-append (on_close ∷ xs) ys = sent_bytes-append xs ys

sent_bytes-postcall : (v : QueueValue) (e : Bool) (n : ℕ) → sent_bytes (postcall v e n) ≡ []
unfolding postcall
sent_bytes-postcall v e n = front v.cback
  where
    front :
        (c : Option ℕ)
        → sent_bytes (elim c as (λ _. List Event) [ none ↦ [] | some k ↦ post_call k e n ∷ [] ])
          ≡ []
    front none = unfold sent_bytes in refl
    front (some k) = unfold sent_bytes in refl

messages-append : (xs ys : List QueueValue) → messages (xs ++ ys) ≡ messages xs ++ messages ys
unfolding messages
messages-append [] ys = refl
messages-append (v ∷ xs) ys =
    rw (messages-append xs ys) (sym (append_assoc v.message (messages xs) (messages ys)))

next-unsent :
    (vs : List QueueValue)
    → let s : Stream = async_write (record { write_queue = vs; active = true; pending = [] }) in
      (unsent_of s ≡ messages vs) × (s.active ≡ true)
unfolding async_write async_write_at unsent messages
next-unsent [] = (refl, refl)
next-unsent (v ∷ vs) = (refl, refl)

write-unsent :
    (v : QueueValue) (p : List Write) (q : List QueueValue)
    → OneWriteOn p q true
    → let s : Stream = write_impl v (record { write_queue = q; active = true; pending = p }) in
      (unsent_of s ≡ unsent p q ++ v.message) × (s.active ≡ true)
unfolding write_impl unsent
write-unsent v [] [] h =
    let (all, active) = next-unsent (v ∷ []) in
    (all ∙ (unfold messages in append-nil v.message), active)
write-unsent v [] (u ∷ us) h = absurd (cc h)
write-unsent v (w ∷ []) (u ∷ us) h =
    let one : messages (v ∷ []) ≡ v.message = unfold messages in append-nil v.message in
    (
      rw (messages-append us (v ∷ []), one) (sym (append_assoc w.data_ (messages us) v.message)),
      refl,
    )
write-unsent v (w ∷ []) [] h = absurd h
write-unsent v (w ∷ x ∷ ws) q h = absurd h

complete-unsent :
    (n : ℕ) (p : List Write) (q : List QueueValue)
    → OneWriteOn p q true
    → let r : Stream × List Event =
        complete false n (record { write_queue = q; active = true; pending = p }) in
      (sent_bytes r.1 ++ unsent_of r.0 ≡ unsent p q) × (r.0.active ≡ true)
unfolding complete write_handler
complete-unsent n [] q h = (unfold sent_bytes unsent in refl, refl)
complete-unsent n (w ∷ []) (v ∷ vs) (d, l) = elim (Bool-cases (ltb n w.size)) [
  | inl e ↦
      let left : drop (w.total + n) v.message ≡ drop n w.data_ =
        sym (rw d (drop-drop w.total n v.message)) in
      unfold async_write_at sent_bytes unsent in
      rw (e, left)
        (
          rw append-nil (
              sym (append_assoc (take n w.data_) (drop n w.data_) (messages vs))
              ∙ ap (λ t. t ++ messages vs) (take-append-drop n w.data_)),
          refl,
        )
  | inr e ↦
      let whole : take n w.data_ ≡ w.data_ = take_all n w.data_ (ground arith) in
      let (rest, active) = next-unsent vs in
      unfold next_message sent_bytes unsent in
      rw (e, whole, sent_bytes-postcall v false n)
        (rw (append-nil w.data_) (ap (λ t. w.data_ ++ t) rest), active)
]
complete-unsent n (w ∷ []) [] h = absurd h
complete-unsent n (w ∷ x ∷ ws) q h = absurd h

as_active : (s : Stream) → s.active ≡ true → record s { active = true } ≡ s
as_active s a = ap (λ x. record s { active = x }) (sym a)

write-unsent_at :
    (v : QueueValue) (s : Stream)
    → s.active ≡ true
    → OneWrite s
    → (unsent_of (write_impl v s) ≡ unsent_of s ++ v.message) × ((write_impl v s).active ≡ true)
write-unsent_at v s a h =
    subst
      (λ (z : Stream).
        (unsent_of (write_impl v z) ≡ unsent_of z ++ v.message) × ((write_impl v z).active ≡ true))
      (as_active s a) (write-unsent v s.pending s.write_queue (rw a at h))

complete-unsent_at :
    (n : ℕ) (s : Stream)
    → s.active ≡ true
    → OneWrite s
    → (sent_bytes (complete false n s).1 ++ unsent_of (complete false n s).0 ≡ unsent_of s)
      × ((complete false n s).0.active ≡ true)
complete-unsent_at n s a h =
    subst
      (λ (z : Stream).
        (sent_bytes (complete false n z).1 ++ unsent_of (complete false n z).0 ≡ unsent_of z)
        × ((complete false n z).0.active ≡ true))
      (as_active s a) (complete-unsent n s.pending s.write_queue (rw a at h))

-- From an open object whose only write is for its front message, without errors and closing: the
-- bytes that the socket took, and then those still to be sent, are those that were to be sent and
-- then those of the messages posted, in this order, however the socket cuts its writes.
pub run-unsent :
    (ops : List Op) (s : Stream)
    → Undisturbed ops
    → s.active ≡ true
    → OneWrite s
    → sent_bytes (run ops s).1 ++ unsent_of (run ops s).0 ≡ unsent_of s ++ posted_bytes ops
unfolding run step posted_bytes
run-unsent [] s u a h = unfold sent_bytes in sym (append-nil (unsent_of s))
run-unsent (writes v ∷ ops) s u a h =
    let s1 : Stream = write_impl v s in
    let (all, active) = write-unsent_at v s a h in
    let ih =
      run-unsent ops s1 u active (write_impl-OneWrite v s.pending s.write_queue s.active h) in
    ih ∙ rw all (append_assoc (unsent_of s) v.message (posted_bytes ops))
run-unsent (completes true n ∷ ops) s u a h = absurd u
run-unsent (completes false n ∷ ops) s u a h =
    let s1 : Stream = (complete false n s).0 in
    let (all, active) = complete-unsent_at n s a h in
    let ih =
      run-unsent ops s1 u active (complete-OneWrite false n s.pending s.write_queue s.active h) in
    rw (sent_bytes-append (complete false n s).1 (run ops s1).1) (
      append_assoc (sent_bytes (complete false n s).1) (sent_bytes (run ops s1).1)
        (unsent_of (run ops s1).0)
      ∙ ap (λ t. sent_bytes (complete false n s).1 ++ t) ih
      ∙ sym (append_assoc (sent_bytes (complete false n s).1) (unsent_of s1) (posted_bytes ops))
      ∙ ap (λ t. t ++ posted_bytes ops) all)
run-unsent (closes ∷ ops) s u a h = absurd u
