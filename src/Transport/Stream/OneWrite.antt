-- ===== src/Transport/Stream/OneWrite.antt =====
-- One write at a time.
use dep_srpc.Base.{
  ℕ, zero, suc, ◌+◌, ◌-◌, ◌≡◌, refl, ap, sym, ◌∙◌, arith, Bool, true, false, ltb, Bool-cases, inl,
  inr, List, [], ◌∷◌, length, length-drop, drop,
}
use dep_srpc.Transport.Stream.{
  QueueValue, Write, Stream, async_write_at, async_write, next_message, write_handler, write_impl,
  close_unsafe, Op, writes, completes, closes, complete, step, run,
}

-- At most one write is outstanding. It is for the front message, and its buffer is what is left of
-- that message; where there is none, the queue is empty or the object is closed.
abbrev pub OneWriteOn : List Write → List QueueValue → Bool → Type 0
OneWriteOn [] [] a = Unit
OneWriteOn [] (v ∷ vs) a = a ≡ false
OneWriteOn (w ∷ []) (v ∷ vs) a = (w.data_ ≡ drop w.total v.message) × (w.size ≡ length w.data_)
OneWriteOn (w ∷ []) [] a = ⊥
OneWriteOn (w ∷ x ∷ ws) q a = ⊥

abbrev pub OneWrite : Stream → Type 0
OneWrite s = OneWriteOn s.pending s.write_queue s.active

async_write-OneWrite :
    (q : List QueueValue) (a : Bool)
    → OneWrite (async_write (record { write_queue = q; active = a; pending = [] }))
unfolding async_write async_write_at
async_write-OneWrite [] a = tt
async_write-OneWrite (v ∷ vs) true = (refl, refl)
async_write-OneWrite (v ∷ vs) false = refl

drop-nil : (n : ℕ) → drop {A = ℕ} n [] ≡ []
drop-nil zero = refl
drop-nil (suc n) = refl

pub drop-drop : (m n : ℕ) (xs : List ℕ) → drop n (drop m xs) ≡ drop (m + n) xs
drop-drop zero n xs = ap (λ k. drop k xs) (omega arith)
drop-drop (suc m) n [] = drop-nil n ∙ sym (drop-nil (suc m + n))
drop-drop (suc m) n (x ∷ xs) = drop-drop m n xs ∙ ap (λ k. drop k (x ∷ xs)) suc_out
  where
    suc_out : suc (m + n) ≡ suc m + n
    suc_out = omega arith

again-OneWrite :
    (w : Write) (bytes : ℕ) (v : QueueValue) (vs : List QueueValue) (a : Bool)
    → OneWrite (
        async_write_at
          (drop (w.total + bytes) v.message)
          (length v.message - (w.total + bytes))
          (w.total + bytes)
          (record { write_queue = v ∷ vs; active = a; pending = [] }))
unfolding async_write_at
again-OneWrite w bytes v vs true = (refl, sym (length-drop (w.total + bytes) v.message))
again-OneWrite w bytes v vs false = refl

handler-OneWrite :
    (error : Bool) (bytes : ℕ) (w : Write) (v : QueueValue) (vs : List QueueValue) (a : Bool)
    → OneWriteOn (w ∷ []) (v ∷ vs) a
    → OneWrite
        (write_handler error bytes w (record { write_queue = v ∷ vs; active = a; pending = [] })).0
unfolding write_handler next_message
handler-OneWrite true bytes w v vs a h = async_write-OneWrite vs a
handler-OneWrite false bytes w v vs a h = elim (Bool-cases (ltb bytes w.size)) [
  | inl e ↦ rw e (again-OneWrite w bytes v vs a)
  | inr e ↦ rw e (async_write-OneWrite vs a)
]

pub complete-OneWrite :
    (error : Bool) (bytes : ℕ) (p : List Write) (q : List QueueValue) (a : Bool)
    → OneWriteOn p q a
    → OneWrite (complete error bytes (record { write_queue = q; active = a; pending = p })).0
unfolding complete
complete-OneWrite error bytes [] q a h = h
complete-OneWrite error bytes (w ∷ []) (v ∷ vs) a h = handler-OneWrite error bytes w v vs a h
complete-OneWrite error bytes (w ∷ []) [] a h = absurd h
complete-OneWrite error bytes (w ∷ x ∷ ws) q a h = absurd h

pub write_impl-OneWrite :
    (v : QueueValue) (p : List Write) (q : List QueueValue) (a : Bool)
    → OneWriteOn p q a
    → OneWrite (write_impl v (record { write_queue = q; active = a; pending = p }))
unfolding write_impl
write_impl-OneWrite v [] [] a h = async_write-OneWrite (v ∷ []) a
write_impl-OneWrite v [] (u ∷ us) a h = h
write_impl-OneWrite v (w ∷ []) (u ∷ us) a h = h
write_impl-OneWrite v (w ∷ []) [] a h = absurd h
write_impl-OneWrite v (w ∷ x ∷ ws) q a h = absurd h

close-OneWrite :
    (p : List Write) (q : List QueueValue) (a : Bool)
    → OneWriteOn p q a
    → OneWrite (close_unsafe (record { write_queue = q; active = a; pending = p })).0
unfolding close_unsafe
close-OneWrite p q false h = h
close-OneWrite [] [] true h = tt
close-OneWrite [] (v ∷ vs) true h = refl
close-OneWrite (w ∷ []) (v ∷ vs) true h = h
close-OneWrite (w ∷ []) [] true h = absurd h
close-OneWrite (w ∷ x ∷ ws) q true h = absurd h

step-OneWrite : (op : Op) (s : Stream) → OneWrite s → OneWrite (step op s).0
unfolding step
step-OneWrite (writes v) s h = write_impl-OneWrite v s.pending s.write_queue s.active h
step-OneWrite (completes e n) s h = complete-OneWrite e n s.pending s.write_queue s.active h
step-OneWrite closes s h = close-OneWrite s.pending s.write_queue s.active h

-- From a state in which the socket has at most one write of the object, for what is left of the
-- front message: this is so again after every history, with partial writes, errors and a close at
-- any moment, and where there is no write the queue is empty or the object is closed.
pub run-OneWrite : (ops : List Op) (s : Stream) → OneWrite s → OneWrite (run ops s).0
unfolding run
run-OneWrite [] s h = h
run-OneWrite (op ∷ ops) s h = run-OneWrite ops (step op s).0 (step-OneWrite op s h)
