-- ===== src/Transport/Datagram/Log.antt =====
-- What the socket and the callbacks see of the datagrams.
use dep_srpc.Base.{ℕ, zero, suc, ◌≡◌, refl, ap, Bool, ◌==◌, if◌then◌else◌, Bool-cases, inl, inr}
use dep_srpc.Base.{List, [], ◌∷◌, ◌++◌}
use dep_srpc.Transport.Datagram.{
  QueueValue, Handle, write_handle, write_to_handle, Receive, Datagram, Event, async_send,
  async_send_to, pre_call, post_call, delegate_on_write_error, on_write_error, on_write_to_error,
  delegate_on_data, delegate_on_read_error, on_read_error, delegate_on_close, on_close, Op,
  write_to_queue, sent, reads, closes, reads_from, sets_endpoint, received, precall, postcall,
  async_write, write_to_queue_impl, write_errors, next_datagram, handle_write, complete,
}

module _ {ℓ} {E : Type ℓ} where
  -- The calls that are about writing.
  unfoldable pub writing : List (Event E) → List (Event E)
  writing [] = []
  writing (async_send m ∷ es) = async_send m ∷ writing es
  writing (async_send_to m to ∷ es) = async_send_to m to ∷ writing es
  writing (pre_call k ∷ es) = pre_call k ∷ writing es
  writing (post_call k error len ∷ es) = post_call k error len ∷ writing es
  writing (delegate_on_write_error ∷ es) = delegate_on_write_error ∷ writing es
  writing (on_write_error ∷ es) = on_write_error ∷ writing es
  writing (on_write_to_error to ∷ es) = on_write_to_error to ∷ writing es
  writing (delegate_on_data m ∷ es) = writing es
  writing (delegate_on_read_error ∷ es) = writing es
  writing (on_read_error ∷ es) = writing es
  writing (delegate_on_close ∷ es) = writing es
  writing (on_close ∷ es) = writing es

  -- The datagrams that a history posts, and how its sends end.
  unfoldable pub posted : List (Op E) → List (QueueValue E)
  posted [] = []
  posted (write_to_queue v ∷ ops) = v ∷ posted ops
  posted (sent error len ∷ ops) = posted ops
  posted (reads ∷ ops) = posted ops
  posted (closes ∷ ops) = posted ops
  posted (reads_from ep ∷ ops) = posted ops
  posted (sets_endpoint ep ∷ ops) = posted ops
  posted (received error sender bytes ∷ ops) = posted ops

  unfoldable pub completions : List (Op E) → List (Bool × ℕ)
  completions [] = []
  completions (write_to_queue v ∷ ops) = completions ops
  completions (sent error len ∷ ops) = (error, len) ∷ completions ops
  completions (reads ∷ ops) = completions ops
  completions (closes ∷ ops) = completions ops
  completions (reads_from ep ∷ ops) = completions ops
  completions (sets_endpoint ep ∷ ops) = completions ops
  completions (received error sender bytes ∷ ops) = completions ops

  -- No send ends that was not started: there are `n` datagrams in the queue.
  abbrev pub Answered : List (Op E) → ℕ → Type 0
  Answered [] n = Unit
  Answered (write_to_queue v ∷ ops) n = Answered ops (suc n)
  Answered (sent error len ∷ ops) zero = ⊥
  Answered (sent error len ∷ ops) (suc n) = Answered ops n
  Answered (reads ∷ ops) n = Answered ops n
  Answered (closes ∷ ops) n = Answered ops n
  Answered (reads_from ep ∷ ops) n = Answered ops n
  Answered (sets_endpoint ep ∷ ops) n = Answered ops n
  Answered (received error sender bytes ∷ ops) n = Answered ops n

  pub writing-append : (xs ys : List (Event E)) → writing (xs ++ ys) ≡ writing xs ++ writing ys
  unfolding writing
  writing-append [] ys = refl
  writing-append (async_send m ∷ es) ys = ap (λ t. async_send m ∷ t) (writing-append es ys)
  writing-append (async_send_to m to ∷ es) ys =
      ap (λ t. async_send_to m to ∷ t) (writing-append es ys)
  writing-append (pre_call k ∷ es) ys = ap (λ t. pre_call k ∷ t) (writing-append es ys)
  writing-append (post_call k error len ∷ es) ys =
      ap (λ t. post_call k error len ∷ t) (writing-append es ys)
  writing-append (delegate_on_write_error ∷ es) ys =
      ap (λ t. delegate_on_write_error ∷ t) (writing-append es ys)
  writing-append (on_write_error ∷ es) ys = ap (λ t. on_write_error ∷ t) (writing-append es ys)
  writing-append (on_write_to_error to ∷ es) ys =
      ap (λ t. on_write_to_error to ∷ t) (writing-append es ys)
  writing-append (delegate_on_data m ∷ es) ys = writing-append es ys
  writing-append (delegate_on_read_error ∷ es) ys = writing-append es ys
  writing-append (on_read_error ∷ es) ys = writing-append es ys
  writing-append (delegate_on_close ∷ es) ys = writing-append es ys
  writing-append (on_close ∷ es) ys = writing-append es ys

module _ {ℓ} {E : Type ℓ} (port : E → ℕ) where
  unfoldable pub handle_of : QueueValue E → Handle
  handle_of v = if port v.to == 0 then write_handle else write_to_handle

  -- The socket has the send of the front of the queue, and no other.
  unfoldable pub outstanding : List (QueueValue E) → List Handle
  outstanding [] = []
  outstanding (v ∷ vs) = handle_of v ∷ []

  -- What starting a datagram calls, and what its end calls.
  unfoldable pub start : QueueValue E → List (Event E)
  start v =
      precall v
      ++ (if port v.to == 0 then async_send v.message else async_send_to v.message v.to) ∷ []

  unfoldable pub finish : QueueValue E → Bool × ℕ → List (Event E)
  finish v (error, len) = write_errors (handle_of v) v error ++ postcall v error len

  -- The calls for a sequence of datagrams whose sends end one after the other: each is started when
  -- the one before it has ended.
  unfoldable pub in_order : List (QueueValue E) → List (Bool × ℕ) → List (Event E)
  in_order [] cs = []
  in_order (v ∷ vs) [] = start v
  in_order (v ∷ vs) (c ∷ cs) = start v ++ (finish v c ++ in_order vs cs)

  -- The same from a queue whose front is started.
  unfoldable pub resume :
      List (QueueValue E) → List (QueueValue E) → List (Bool × ℕ) → List (Event E)
  resume [] vs cs = in_order vs cs
  resume (v ∷ q) vs [] = []
  resume (v ∷ q) vs (c ∷ cs) = finish v c ++ in_order (q ++ vs) cs

  unfoldable pub state_at : List (QueueValue E) → E → List Receive → Bool → Datagram E
  state_at q ep rs a = record {
    ep = ep;
    write_queue = q;
    sending = outstanding q;
    receiving = rs;
    active = a;
  }

  unfoldable pub front : List (QueueValue E) → List (Event E)
  front [] = []
  front (v ∷ q) = start v

  async_write-start :
      (v : QueueValue E) (q : List (QueueValue E)) (ep : E) (rs : List Receive) (a : Bool)
      → async_write port v
          (record { ep = ep; write_queue = v ∷ q; sending = []; receiving = rs; active = a })
        ≡ (state_at (v ∷ q) ep rs a, start v)
  unfolding async_write state_at outstanding handle_of start
  async_write-start v q ep rs a = elim (Bool-cases (port v.to == 0)) [
    | inl e ↦ rw e refl
    | inr e ↦ rw e refl
  ]

  next_datagram-front :
      (q : List (QueueValue E)) (ep : E) (rs : List Receive) (a : Bool) (old : List (QueueValue E))
      → next_datagram port q
          (record { ep = ep; write_queue = old; sending = []; receiving = rs; active = a })
        ≡ (state_at q ep rs a, front q)
  unfolding next_datagram front state_at outstanding
  next_datagram-front [] ep rs a old = refl
  next_datagram-front (v ∷ q) ep rs a old = async_write-start v q ep rs a

  pub complete-finish :
      (v : QueueValue E) (q : List (QueueValue E)) (ep : E) (rs : List Receive) (a : Bool)
      (c : Bool × ℕ)
      → complete port c.0 c.1 (state_at (v ∷ q) ep rs a)
        ≡ (state_at q ep rs a, finish v c ++ front q)
  unfolding complete handle_write state_at outstanding finish
  complete-finish v q ep rs a c = rw (next_datagram-front q ep rs a (v ∷ q)) refl

  unfoldable pub started : List (QueueValue E) → QueueValue E → List (Event E)
  started [] v = start v
  started (u ∷ q) v = []

  pub write_to_queue_impl-started :
      (v : QueueValue E) (q : List (QueueValue E)) (ep : E) (rs : List Receive) (a : Bool)
      → write_to_queue_impl port v (state_at q ep rs a)
        ≡ (state_at (q ++ v ∷ []) ep rs a, started q v)
  unfolding write_to_queue_impl state_at outstanding started
  write_to_queue_impl-started v [] ep rs a = async_write-start v [] ep rs a
  write_to_queue_impl-started v (u ∷ q) ep rs a = refl
