-- ===== src/Transport/Datagram/Receiving.antt =====
-- The handlers that write or close leave the receives alone, and report no data.
use dep_srpc.Base.{
  ℕ, ◌≡◌, refl, Bool, true, false, ◌==◌, Bool-cases, inl, inr, Option, none, some, List, [], ◌∷◌,
  ◌++◌,
}
use dep_srpc.Transport.Datagram.{
  QueueValue, Handle, write_handle, write_to_handle, Receive, Datagram, Event, async_send,
  async_send_to, pre_call, post_call, delegate_on_write_error, on_write_error, on_write_to_error,
  delegate_on_data, delegate_on_read_error, on_read_error, delegate_on_close, on_close, precall,
  postcall, async_write, write_to_queue_impl, write_errors, next_datagram, handle_write, complete,
  close_unsafe,
}

module _ {ℓ} {E : Type ℓ} where
  abbrev pub NoData : List (Event E) → Type 0
  NoData [] = Unit
  NoData (delegate_on_data m ∷ es) = ⊥
  NoData (_ ∷ es) = NoData es

  -- The receives of a state, and calls without data.
  abbrev pub Steady : List Receive → Datagram E × List (Event E) → Type 0
  Steady rs r = (r.0.receiving ≡ rs) × NoData r.1

  NoData-append : (xs ys : List (Event E)) → NoData xs → NoData ys → NoData (xs ++ ys)
  NoData-append [] ys h k = k
  NoData-append (delegate_on_data m ∷ es) ys h k = absurd h
  NoData-append (async_send m ∷ es) ys h k = NoData-append es ys h k
  NoData-append (async_send_to m to ∷ es) ys h k = NoData-append es ys h k
  NoData-append (pre_call c ∷ es) ys h k = NoData-append es ys h k
  NoData-append (post_call c error len ∷ es) ys h k = NoData-append es ys h k
  NoData-append (delegate_on_write_error ∷ es) ys h k = NoData-append es ys h k
  NoData-append (on_write_error ∷ es) ys h k = NoData-append es ys h k
  NoData-append (on_write_to_error to ∷ es) ys h k = NoData-append es ys h k
  NoData-append (delegate_on_read_error ∷ es) ys h k = NoData-append es ys h k
  NoData-append (on_read_error ∷ es) ys h k = NoData-append es ys h k
  NoData-append (delegate_on_close ∷ es) ys h k = NoData-append es ys h k
  NoData-append (on_close ∷ es) ys h k = NoData-append es ys h k

  precall-NoData :
      (m : List ℕ) (to : E) (o : Option ℕ)
      → NoData (precall (record { message = m; to = to; cback = o }))
  unfolding precall
  precall-NoData m to none = tt
  precall-NoData m to (some k) = tt

  postcall-NoData :
      (m : List ℕ) (to : E) (o : Option ℕ) (error : Bool) (len : ℕ)
      → NoData (postcall (record { message = m; to = to; cback = o }) error len)
  unfolding postcall
  postcall-NoData m to none error len = tt
  postcall-NoData m to (some k) error len = tt

  write_errors-NoData :
      (h : Handle) (v : QueueValue E) (error : Bool) → NoData (write_errors h v error)
  unfolding write_errors
  write_errors-NoData write_handle v true = tt
  write_errors-NoData write_handle v false = tt
  write_errors-NoData write_to_handle v true = tt
  write_errors-NoData write_to_handle v false = tt

  pub close-Steady : (s : Datagram E) → Steady s.receiving (close_unsafe s)
  unfolding close_unsafe
  close-Steady s = elim (Bool-cases s.active) [ inl e ↦ rw e (refl, tt) | inr e ↦ rw e (refl, tt) ]

module _ {ℓ} {E : Type ℓ} (port : E → ℕ) where
  async_write-Steady :
      (v : QueueValue E) (s : Datagram E) → Steady s.receiving (async_write port v s)
  unfolding async_write
  async_write-Steady v s =
      let before : NoData (precall v) = precall-NoData v.message v.to v.cback in
      elim (Bool-cases (port v.to == 0)) [
        | inl e ↦ rw e (refl, NoData-append (precall v) (async_send v.message ∷ []) before tt)
        | inr e ↦
            rw e (refl, NoData-append (precall v) (async_send_to v.message v.to ∷ []) before tt)
      ]

  write_on :
      (v : QueueValue E) (q : List (QueueValue E)) (s : Datagram E)
      → s.write_queue ≡ q
      → Steady s.receiving (write_to_queue_impl port v s)
  unfolding write_to_queue_impl
  write_on v [] s e = rw e (async_write-Steady v (record s { write_queue = v ∷ [] }))
  write_on v (u ∷ q) s e = rw e (refl, tt)

  pub write-Steady :
      (v : QueueValue E) (s : Datagram E) → Steady s.receiving (write_to_queue_impl port v s)
  write-Steady v s = write_on v s.write_queue s refl

  next-Steady :
      (q : List (QueueValue E)) (s : Datagram E) → Steady s.receiving (next_datagram port q s)
  unfolding next_datagram
  next-Steady [] s = (refl, tt)
  next-Steady (v ∷ q) s = async_write-Steady v (record s { write_queue = v ∷ q })

  handle_on :
      (q : List (QueueValue E)) (h : Handle) (error : Bool) (len : ℕ) (s : Datagram E)
      → s.write_queue ≡ q
      → Steady s.receiving (handle_write port h error len s)
  unfolding handle_write
  handle_on [] h error len s e = rw e (refl, tt)
  handle_on (v ∷ q) h error len s e =
      let full : Datagram E = record s { write_queue = v ∷ q } in
      let (same_receives, quiet) = next-Steady q full in
      rw e (
        same_receives,
        NoData-append (write_errors h v error ++ postcall v error len) (next_datagram port q full).1
            (NoData-append (write_errors h v error) (postcall v error len)
              (write_errors-NoData h v error) (postcall-NoData v.message v.to v.cback error len))
            quiet,
      )

  complete_on :
      (hs : List Handle) (error : Bool) (len : ℕ) (s : Datagram E)
      → s.sending ≡ hs
      → Steady s.receiving (complete port error len s)
  unfolding complete
  complete_on [] error len s e = rw e (refl, tt)
  complete_on (h ∷ hs) error len s e =
      rw e (handle_on s.write_queue h error len (record s { sending = hs }) refl)

  pub complete-Steady :
      (error : Bool) (len : ℕ) (s : Datagram E) → Steady s.receiving (complete port error len s)
  complete-Steady error len s = complete_on s.sending error len s refl
