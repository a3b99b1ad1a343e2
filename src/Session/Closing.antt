-- ===== src/Session/Closing.antt =====
-- However a connection goes: every operation ends, and the connection is closed at most once.
use dep_srpc.Base.{
  ℕ, zero, suc, ◌+◌, ◌^◌, ◌≤◌, ◌<◌, length, length-append, sym, ◌≡◌, refl, ap, ◌∙◌, arith, Bool,
  true, false, if◌then◌else◌, some, List, [], ◌∷◌, ◌++◌,
}
use dep_srpc.SizePack.Policy.{Policy, IsPrefix}
use dep_srpc.Hash.Hasher.{Hasher}
use mathlib.Core.Path.{subst}
use dep_srpc.Delegate.Message
use dep_srpc.Delegate.Message.Drain.{IsBounded}
use dep_srpc.Delegate.Message.Chunks.{on_data_total}
use dep_srpc.Protocol.Binary.{
  Reply, on_message_ready, on_message_past, bad_checksum, bad_length, bad_tag, validate_length,
  on_message,
}
use dep_srpc.Session.{
  Session, Event, async_read_some, send_buffer_size, handed_on, handed_past, on_close, socket_close,
  Op, assigns, reads, runs_close, write_fails, received, set_buffers, resize_buffer,
  assign_transport, start_read, close, close_unsafe, close_impl, hand_on, respond, respond_all,
  read_handler, step, run,
}

unfoldable pub closings : List Event → ℕ
closings [] = 0
closings (on_close ∷ es) = 1 + closings es
closings (async_read_some n ∷ es) = closings es
closings (handed_past tag payload behind ∷ es) = closings es
closings (send_buffer_size n ∷ es) = closings es
closings (handed_on tag payload ∷ es) = closings es
closings (socket_close ∷ es) = closings es

-- How many times a connection can still be closed.
unfoldable pub to_close : Bool → ℕ
to_close active = if active then 1 else 0

closings-append : (xs ys : List Event) → closings (xs ++ ys) ≡ closings xs + closings ys
unfolding closings
closings-append [] ys = omega arith
closings-append (on_close ∷ es) ys = omega (arith, closings-append es ys)
closings-append (async_read_some n ∷ es) ys = closings-append es ys
closings-append (handed_past tag payload behind ∷ es) ys = closings-append es ys
closings-append (send_buffer_size n ∷ es) ys = closings-append es ys
closings-append (handed_on tag payload ∷ es) ys = closings-append es ys
closings-append (socket_close ∷ es) ys = closings-append es ys

-- Nothing is closed, and the bytes left over stay.
abbrev Quiet : Session → Session × List Event → Type 0
Quiet s r =
    (closings r.1 ≡ 0)
    × (r.0.active ≡ s.active)
    × (r.0.binary ≡ s.binary)
    × (r.0.unpacked ≡ s.unpacked)

-- The closes are accounted for, and at most `n` bytes more are left over.
abbrev Counted : ℕ → Session → Session × List Event → Type 0
Counted n s r =
    (closings r.1 + to_close r.0.active ≡ to_close s.active)
    × (r.0.binary ≡ s.binary)
    × (length r.0.unpacked ≤ length s.unpacked + n)

Quiet-Counted : (n : ℕ) (s : Session) (r : Session × List Event) → Quiet s r → Counted n s r
Quiet-Counted n s r (quiet, same, binary, unpacked) =
    (omega (arith, quiet, ap to_close same), binary, omega (arith, ap length unpacked))

hand_on-Quiet : (r : Reply) (s : Session) → Quiet s (hand_on r s)
unfolding hand_on close closings
hand_on-Quiet (on_message_ready tag payload) s = (refl, refl, refl, refl)
hand_on-Quiet (on_message_past tag payload behind) s = (refl, refl, refl, refl)
hand_on-Quiet bad_checksum s = (refl, refl, refl, refl)
hand_on-Quiet bad_length s = (refl, refl, refl, refl)
hand_on-Quiet bad_tag s = (refl, refl, refl, refl)

close_unsafe-Counted :
    (active : Bool) (s : Session)
    → let t : Session = record s { active = active } in Counted 0 t (close_unsafe t)
unfolding close_unsafe closings to_close
close_unsafe-Counted true s = (refl, refl, omega arith)
close_unsafe-Counted false s = (refl, refl, omega arith)

close_impl-Counted :
    (closes : ℕ) (s : Session)
    → let t : Session = record s { closes = closes } in Counted 0 t (close_impl t)
unfolding close_impl
close_impl-Counted zero s = (unfold closings to_close in omega arith, refl, omega arith)
close_impl-Counted (suc n) s = close_unsafe-Counted s.active (record s { closes = n })

-- The bytes that an operation receives, and a history.
unfoldable pub received_by : Op → ℕ
received_by assigns = 0
received_by reads = 0
received_by runs_close = 0
received_by write_fails = 0
received_by (received error bytes) = length bytes

unfoldable pub received_bytes : List Op → ℕ
received_bytes [] = 0
received_bytes (op ∷ ops) = received_by op + received_bytes ops

module _ (p tag_policy : Policy) (hash : Hasher) (unpack_message : List ℕ → List ℕ) where
  respond-Quiet :
      (e : Message.Event) (s : Session) → Quiet s (respond p tag_policy hash unpack_message e s)
  unfolding respond start_read close closings
  respond-Quiet (Message.message m) s =
      hand_on-Quiet (on_message tag_policy hash unpack_message m) s
  respond-Quiet Message.error s = (refl, refl, refl, refl)
  respond-Quiet Message.need_read s = (refl, refl, refl, refl)

  respond_all-Quiet :
      (es : List Message.Event) (s : Session)
      → Quiet s (respond_all p tag_policy hash unpack_message es s)
  unfolding respond_all
  respond_all-Quiet [] s = (unfold closings in refl, refl, refl, refl)
  respond_all-Quiet (e ∷ es) s =
      let r : Session × List Event = respond p tag_policy hash unpack_message e s in
      let rest : Session × List Event = respond_all p tag_policy hash unpack_message es r.0 in
      let (quiet, same, binary, bytes) = respond-Quiet e s in
      let (still, same_still, binary_still, bytes_still) = respond_all-Quiet es r.0 in
      (
        omega (arith, closings-append r.1 rest.1, quiet, still),
        same_still ∙ same,
        binary_still ∙ binary,
        bytes_still ∙ bytes,
      )

  module _ (law : IsPrefix p) where
    -- The lengths that the protocol takes, and the bytes that there are.
    abbrev IsShort : Session → ℕ → Type 0
    IsShort s n = IsBounded p (validate_length s.binary) × (length s.unpacked + n < 2 ^ 63)

    read_handler-Counted :
        (error : Bool) (bytes : List ℕ) (s : Session)
        → IsShort s (length bytes)
        → (r : Session × List Event) × (read_handler p tag_policy hash unpack_message error bytes s
            ≡ some r)
          × Counted (length bytes) s r
    unfolding read_handler
    read_handler-Counted true bytes s h = (
      (close s, []),
      refl,
      Quiet-Counted (length bytes) s (close s, [])
          (unfold closings close in (refl, refl, refl, refl)),
    )
    read_handler-Counted false bytes s (bounded, short) =
        let (left, es, e, fewer) =
          on_data_total p (validate_length s.binary) law bounded s.unpacked bytes
            (omega (arith, short, length-append s.unpacked bytes)) in
        let busy : Session = record s { unpacked = left } in
        let r : Session × List Event = respond_all p tag_policy hash unpack_message es busy in
        let (counted, binary, kept) = Quiet-Counted 0 busy r (respond_all-Quiet es busy) in
        (
          r,
          rw e refl,
          (counted, binary, omega (arith, kept, fewer, length-append s.unpacked bytes)),
        )

    received-Counted :
        (receiving : ℕ) (error : Bool) (bytes : List ℕ) (s : Session)
        → IsShort s (length bytes)
        → let t : Session = record s { receiving = receiving } in
          (r : Session × List Event) × (step p tag_policy hash unpack_message
              (received error bytes)
              t
            ≡ some r)
          × Counted (length bytes) t r
    unfolding step
    received-Counted zero error bytes s h =
        let t : Session = record s { receiving = 0 } in
        ((t, []), refl, (unfold closings in omega arith, refl, omega arith))
    received-Counted (suc n) error bytes s h =
        read_handler-Counted error bytes (record s { receiving = n }) h

    step-Counted :
        (op : Op) (s : Session)
        → IsShort s (received_by op)
        → (r : Session × List Event) × (step p tag_policy hash unpack_message op s ≡ some r)
          × Counted (received_by op) s r
    unfolding step received_by
    step-Counted assigns s h =
        let r : Session × List Event = assign_transport s in
        (
          r,
          refl,
          Quiet-Counted 0 s r (
              unfold closings assign_transport resize_buffer set_buffers in
              (refl, refl, refl, refl)),
        )
    step-Counted reads s h =
        let r : Session × List Event = start_read s in
        (r, refl, Quiet-Counted 0 s r (unfold closings start_read in (refl, refl, refl, refl)))
    step-Counted runs_close s h = (close_impl s, refl, close_impl-Counted s.closes s)
    step-Counted write_fails s h =
        let r : Session × List Event = (close s, []) in
        (r, refl, Quiet-Counted 0 s r (unfold closings close in (refl, refl, refl, refl)))
    step-Counted (received error bytes) s h = received-Counted s.receiving error bytes s h

    -- With a size policy whose prefixes delimit themselves and have at least one byte, lengths from
    -- 2 ^ 63 on that are refused or cannot be held by the prefix, and less than 2 ^ 63 bytes in
    -- all: every history ends, whatever these bytes are and in whatever pieces they come, with
    -- errors and closes at any moment. An active connection calls `on_close` once, and only if it
    -- is no longer active at the end; one that is not active never calls it.
    pub run-closings :
        (ops : List Op) (s : Session)
        → IsBounded p (validate_length s.binary)
        → length s.unpacked + received_bytes ops < 2 ^ 63
        → (r : Session × List Event) × (run p tag_policy hash unpack_message ops s ≡ some r)
          × (closings r.1 + to_close r.0.active ≡ to_close s.active)
    unfolding run received_bytes
    run-closings [] s bounded short = ((s, []), refl, unfold closings in omega arith)
    run-closings (op ∷ ops) s bounded short =
        let (r, e, (now, binary, kept)) = step-Counted op s (bounded, omega (arith, short)) in
        let (rest, f, later) =
          run-closings ops r.0 (subst (λ b. IsBounded p (validate_length b)) (sym binary) bounded)
            (omega (arith, short, kept)) in
        (
          (rest.0, r.1 ++ rest.1),
          rw (e, run, f) refl,
          omega (arith, closings-append r.1 rest.1, now, later),
        )
