-- ===== src/Transport/Stream/Closing.antt =====
-- The delegate hears of the closing once.
use dep_srpc.Base.{
  ℕ, ◌+◌, ◌-◌, ◌≡◌, refl, arith, Bool, true, false, ltb, if◌then◌else◌, Bool-cases, inl, inr,
  Option, none, some, List, [], ◌∷◌, ◌++◌, length, drop,
}
use dep_srpc.Transport.Stream.{
  QueueValue, Write, Event, sent, post_call, write_error, on_close, Stream, async_write_at,
  async_write, postcall, next_message, write_handler, write_impl, close_unsafe, Op, writes,
  completes, closes, complete, step, run,
}

-- How often `on_close` was called.
unfoldable pub closings : List Event → ℕ
closings [] = 0
closings (on_close ∷ es) = 1 + closings es
closings (sent d ∷ es) = closings es
closings (post_call k e n ∷ es) = closings es
closings (write_error ∷ es) = closings es

closings-append : (xs ys : List Event) → closings (xs ++ ys) ≡ closings xs + closings ys
unfolding closings
closings-append [] ys = omega arith
closings-append (on_close ∷ xs) ys = omega (arith, closings-append xs ys)
closings-append (sent d ∷ xs) ys = closings-append xs ys
closings-append (post_call k e n ∷ xs) ys = closings-append xs ys
closings-append (write_error ∷ xs) ys = closings-append xs ys

async_write_at-active :
    (d : List ℕ) (size total : ℕ) (s : Stream) → (async_write_at d size total s).active ≡ s.active
unfolding async_write_at
async_write_at-active d size total s = go s.active
  where
    go :
        (b : Bool)
        → (if b
            then record s {
              pending = s.pending ++ record { data_ = d; size = size; total = total } ∷ [];
            }
            else s).active
          ≡ s.active
    go true = refl
    go false = refl

async_write-active :
    (q : List QueueValue) (a : Bool) (p : List Write)
    → (async_write (record { write_queue = q; active = a; pending = p })).active ≡ a
unfolding async_write
async_write-active [] a p = refl
async_write-active (v ∷ vs) a p =
    async_write_at-active v.message (length v.message) 0
      (record { write_queue = v ∷ vs; active = a; pending = p })

closings-postcall : (v : QueueValue) (e : Bool) (n : ℕ) → closings (postcall v e n) ≡ 0
unfolding postcall closings
closings-postcall v e n = front v.cback
  where
    front :
        (c : Option ℕ)
        → closings (elim c as (λ _. List Event) [ none ↦ [] | some k ↦ post_call k e n ∷ [] ]) ≡ 0
    front none = refl
    front (some k) = refl

-- A completion neither closes the object nor opens it.
handler-active :
    (error : Bool) (bytes : ℕ) (w : Write) (q : List QueueValue) (a : Bool) (p : List Write)
    → let s : Stream = record { write_queue = q; active = a; pending = p } in
      ((write_handler error bytes w s).0.active ≡ a)
      × (closings (write_handler error bytes w s).1 ≡ 0)
unfolding write_handler next_message closings
handler-active error bytes w [] a p = (refl, refl)
handler-active true bytes w (v ∷ vs) a p = (
  async_write-active vs a p,
  rw (closings-append (postcall v true bytes) (write_error ∷ []), closings-postcall v true bytes)
      (omega arith),
)
handler-active false bytes w (v ∷ vs) a p = elim (Bool-cases (ltb bytes w.size)) [
  | inl e ↦ rw e (
    async_write_at-active (drop (w.total + bytes) v.message) (length v.message - (w.total + bytes))
        (w.total + bytes) (record { write_queue = v ∷ vs; active = a; pending = p }),
    refl,
  )
  | inr e ↦ rw e (async_write-active vs a p, closings-postcall v false bytes)
]

complete-active :
    (error : Bool) (bytes : ℕ) (q : List QueueValue) (a : Bool) (p : List Write)
    → let s : Stream = record { write_queue = q; active = a; pending = p } in
      ((complete error bytes s).0.active ≡ a) × (closings (complete error bytes s).1 ≡ 0)
unfolding complete closings
complete-active error bytes q a [] = (refl, refl)
complete-active error bytes q a (w ∷ ws) = handler-active error bytes w q a ws

write_impl-active :
    (v : QueueValue) (q : List QueueValue) (a : Bool) (p : List Write)
    → (write_impl v (record { write_queue = q; active = a; pending = p })).active ≡ a
unfolding write_impl
write_impl-active v [] a p = async_write-active (v ∷ []) a p
write_impl-active v (u ∷ us) a p = refl

-- 1 for an object that can still be closed.
unfoldable pub open_count : Bool → ℕ
open_count true = 1
open_count false = 0

close-count :
    (q : List QueueValue) (a : Bool) (p : List Write)
    → let s : Stream = record { write_queue = q; active = a; pending = p } in
      closings (close_unsafe s).1 + open_count (close_unsafe s).0.active ≡ open_count a
unfolding close_unsafe closings open_count
close-count q true p = omega arith
close-count q false p = omega arith

step-count :
    (op : Op) (s : Stream)
    → closings (step op s).1 + open_count (step op s).0.active ≡ open_count s.active
unfolding step
step-count (writes v) s =
    unfold closings in rw (write_impl-active v s.write_queue s.active s.pending) (omega arith)
step-count (completes error bytes) s =
    let (same, quiet) = complete-active error bytes s.write_queue s.active s.pending in
    rw (same, quiet) (omega arith)
step-count closes s = close-count s.write_queue s.active s.pending

-- In every history `on_close` is called at most once, and never again once the object is closed:
-- the calls made and the one that an open object can still make are those of the start.
pub run-closings :
    (ops : List Op) (s : Stream)
    → closings (run ops s).1 + open_count (run ops s).0.active ≡ open_count s.active
unfolding run
run-closings [] s = unfold closings in omega arith
run-closings (op ∷ ops) s =
    let s1 : Stream = (step op s).0 in
    omega
      (arith, closings-append (step op s).1 (run ops s1).1, run-closings ops s1, step-count op s)
