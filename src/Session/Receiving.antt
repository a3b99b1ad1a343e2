-- ===== src/Session/Receiving.antt =====
-- What the receiving side does with the frames of a sender.
use dep_srpc.Base.{ℕ, suc, ◌+◌, ◌≡◌, ◌≢◌, refl, ap, sym, ◌∙◌, arith, Bool, false, some, All}
use dep_srpc.Base.{List, [], ◌∷◌, ◌++◌, flatten, append_assoc}
use dep_srpc.SizePack.Policy.{Policy, IsPrefix, IsCodec}
use dep_srpc.Hash.Hasher.{Hasher}
use dep_srpc.Delegate.Message
use dep_srpc.Delegate.Message.{deliver, round}
use dep_srpc.Delegate.Message.Frames.{frames, IsSendable}
use dep_srpc.Delegate.Message.Clean.{as_messages, on_data-Parts, settled-frames}
use dep_srpc.Protocol.Binary.{
  Binary, Reply, on_message_ready, on_message_past, bad_checksum, bad_length, bad_tag,
  validate_length, on_message,
}
use dep_srpc.Session.{
  Session, Event, async_read_some, send_buffer_size, handed_on, handed_past, on_close, socket_close,
  Op, received, close, start_read, hand_on, respond, respond_all, read_handler, step, run,
}

-- What was handed on, with the tags, and how many bytes behind the message with it.
unfoldable pub handed : List Event → List (ℕ × List ℕ × ℕ)
handed [] = []
handed (handed_on tag payload ∷ es) = (tag, payload, 0) ∷ handed es
handed (async_read_some n ∷ es) = handed es
handed (handed_past tag payload behind ∷ es) = (tag, payload, behind) ∷ handed es
handed (send_buffer_size n ∷ es) = handed es
handed (on_close ∷ es) = handed es
handed (socket_close ∷ es) = handed es

handed-append : (xs ys : List Event) → handed (xs ++ ys) ≡ handed xs ++ handed ys
unfolding handed
handed-append [] ys = refl
handed-append (handed_on tag payload ∷ es) ys =
    ap (λ t. (tag, payload, 0) ∷ t) (handed-append es ys)
handed-append (async_read_some n ∷ es) ys = handed-append es ys
handed-append (handed_past tag payload behind ∷ es) ys =
    ap (λ t. (tag, payload, behind) ∷ t) (handed-append es ys)
handed-append (send_buffer_size n ∷ es) ys = handed-append es ys
handed-append (on_close ∷ es) ys = handed-append es ys
handed-append (socket_close ∷ es) ys = handed-append es ys

-- The socket's receives without errors.
unfoldable pub receive_all : List (List ℕ) → List Op
receive_all [] = []
receive_all (c ∷ cs) = received false c ∷ receive_all cs

unfoldable pub payload_of : Reply → List (ℕ × List ℕ × ℕ)
payload_of (on_message_ready tag payload) = (tag, payload, 0) ∷ []
payload_of (on_message_past tag payload behind) = (tag, payload, behind) ∷ []
payload_of bad_checksum = []
payload_of bad_length = []
payload_of bad_tag = []

unfoldable pub refusal_of : Reply → ℕ
refusal_of (on_message_ready tag payload) = 0
refusal_of (on_message_past tag payload behind) = 0
refusal_of bad_checksum = 1
refusal_of bad_length = 1
refusal_of bad_tag = 1

hand_on-reply :
    (r : Reply) (s : Session)
    → ((hand_on r s).0 ≡ record s { closes = refusal_of r + s.closes })
      × (handed (hand_on r s).1 ≡ payload_of r)
unfolding hand_on close refusal_of payload_of handed
hand_on-reply (on_message_ready tag payload) s =
    (ap (λ c. record s { closes = c }) (omega arith), refl)
hand_on-reply (on_message_past tag payload behind) s =
    (ap (λ c. record s { closes = c }) (omega arith), refl)
hand_on-reply bad_checksum s = (ap (λ c. record s { closes = c }) (omega arith), refl)
hand_on-reply bad_length s = (ap (λ c. record s { closes = c }) (omega arith), refl)
hand_on-reply bad_tag s = (ap (λ c. record s { closes = c }) (omega arith), refl)

module _ (p tag_policy : Policy) (hash : Hasher) (unpack_message : List ℕ → List ℕ) where
  -- The payloads of the messages that the protocol takes, and how many it refuses.
  unfoldable pub payloads : List (List ℕ) → List (ℕ × List ℕ × ℕ)
  payloads [] = []
  payloads (m ∷ ms) = payload_of (on_message tag_policy hash unpack_message m) ++ payloads ms

  unfoldable pub refusals : List (List ℕ) → ℕ
  refusals [] = 0
  refusals (m ∷ ms) = refusal_of (on_message tag_policy hash unpack_message m) + refusals ms

  payloads-append : (ms ns : List (List ℕ)) → payloads (ms ++ ns) ≡ payloads ms ++ payloads ns
  unfolding payloads
  payloads-append [] ns = refl
  payloads-append (m ∷ ms) ns =
      ap (λ t. payload_of (on_message tag_policy hash unpack_message m) ++ t)
        (payloads-append ms ns)
      ∙ sym (
          append_assoc (payload_of (on_message tag_policy hash unpack_message m)) (payloads ms)
            (payloads ns))

  refusals-append : (ms ns : List (List ℕ)) → refusals (ms ++ ns) ≡ refusals ms + refusals ns
  unfolding refusals
  refusals-append [] ns = omega arith
  refusals-append (m ∷ ms) ns = omega (arith, refusals-append ms ns)

  respond_all-messages :
      (ms : List (List ℕ)) (s : Session)
      → let r =
          respond_all p tag_policy hash unpack_message
            (as_messages ms ++ Message.need_read ∷ [])
            s in
        (r.0 ≡ record s { closes = refusals ms + s.closes; receiving = suc s.receiving })
        × (handed r.1 ≡ payloads ms)
  unfolding respond_all respond as_messages refusals payloads start_read handed
  respond_all-messages [] s =
      (ap (λ c. record s { closes = c; receiving = suc s.receiving }) (omega arith), refl)
  respond_all-messages (m ∷ ms) s =
      let r : Reply = on_message tag_policy hash unpack_message m in
      let (state, calls) = hand_on-reply r s in
      let s1 : Session = (hand_on r s).0 in
      let (state_rest, calls_rest) = respond_all-messages ms s1 in
      let next_state : Session → Session =
        λ t. record t { closes = refusals ms + t.closes; receiving = suc t.receiving } in
      let later : List Event =
        (respond_all p tag_policy hash unpack_message (as_messages ms ++ Message.need_read ∷ [])
          s1).1 in
      (
        state_rest
            ∙ ap (λ (t : Session). next_state t) state
            ∙ ap (λ c. record s { closes = c; receiving = suc s.receiving }) (omega arith),
        handed-append (hand_on r s).1 later
            ∙ ap (λ t. t ++ handed later) calls
            ∙ ap (λ t. payload_of r ++ t) calls_rest,
      )

  abbrev waiting : Binary → List ℕ → ℕ → ℕ → Bool → Session
  waiting b u size c a = record {
    binary = b;
    unpacked = u;
    read_buffer = size;
    receiving = 1;
    closes = c;
    active = a;
  }

  -- A receive in the middle of a sender's frames.
  received-messages :
      (bytes left : List ℕ) (ms : List (List ℕ)) (b : Binary) (u : List ℕ) (size c : ℕ) (a : Bool)
      → Message.on_data p (validate_length b) u bytes
        ≡ some (left, as_messages ms ++ Message.need_read ∷ [])
      → (es : List Event) × (step p tag_policy hash unpack_message
            (received false bytes)
            (waiting b u size c a)
          ≡ some (waiting b left size (refusals ms + c) a, es))
        × (handed es ≡ payloads ms)
  unfolding step read_handler
  received-messages bytes left ms b u size c a e =
      let busy : Session = record (waiting b left size c a) { receiving = 0 } in
      let (state, calls) = respond_all-messages ms busy in
      let es : List Event =
        (respond_all p tag_policy hash unpack_message (as_messages ms ++ Message.need_read ∷ [])
          busy).1 in
      (es, rw e (ap (λ t. some (t, es)) state), calls)

  run-step :
      (op : Op) (ops : List Op) (s s1 s2 : Session) (es more : List Event)
      → step p tag_policy hash unpack_message op s ≡ some (s1, es)
      → run p tag_policy hash unpack_message ops s1 ≡ some (s2, more)
      → run p tag_policy hash unpack_message (op ∷ ops) s ≡ some (s2, es ++ more)
  unfolding run
  run-step op ops s s1 s2 es more e f = rw (e, run, f) refl

  same_count : (ms : List (List ℕ)) (c : ℕ) → ms ≡ [] → c ≡ refusals ms + c
  unfolding refusals
  same_count ms c e = omega (arith, ap refusals e)

  total_count :
      (now later ms : List (List ℕ)) (c : ℕ)
      → ms ≡ now ++ later
      → refusals later + (refusals now + c) ≡ refusals ms + c
  total_count now later ms c e = omega (arith, refusals-append now later, ap refusals e)

  module _ (law : IsPrefix p) (codec : IsCodec p) where
    frames-waiting :
        (chunks ms : List (List ℕ)) (b : Binary) (u : List ℕ) (size c : ℕ) (a : Bool)
        → All (IsSendable p (validate_length b)) ms
        → ((m rest : List ℕ) → round p (validate_length b) u ≢ deliver m rest)
        → u ++ flatten chunks ≡ frames p ms
        → (es : List Event) × (run p tag_policy hash unpack_message
              (receive_all chunks)
              (waiting b u size c a)
            ≡ some (waiting b [] size (refusals ms + c) a, es))
          × (handed es ≡ payloads ms)
    unfolding run receive_all handed payloads refusals
    frames-waiting [] ms b u size c a all settled whole =
        let (left, none_left) =
          settled-frames p (validate_length b) law codec u ms all whole settled in
        (
          [],
          ap (λ t. some (waiting b t size c a, [])) left
              ∙ ap (λ k. some (waiting b [] size k a, [])) (same_count ms c none_left),
          ap payloads (sym none_left),
        )
    frames-waiting (bytes ∷ cs) ms b u size c a all settled whole =
        let (left, ds, e, parts) =
          on_data-Parts p (validate_length b) law codec u bytes (flatten cs) ms all whole in
        let data_done : Message.on_data p (validate_length b) u bytes
            ≡ some (left, as_messages parts.now ++ Message.need_read ∷ []) =
          e ∙ ap (λ t. some (left, t ++ Message.need_read ∷ [])) parts.calls in
        let (es, first, calls) = received-messages bytes left parts.now b u size c a data_done in
        let (fs, others, more) =
          frames-waiting cs parts.later b left size (refusals parts.now + c) a parts.sendable
            parts.settled parts.stream in
        (
          es ++ fs,
          run-step (received false bytes) (receive_all cs) (waiting b u size c a)
                (waiting b left size (refusals parts.now + c) a)
                (waiting b [] size (refusals parts.later + (refusals parts.now + c)) a) es fs first
                others
              ∙ ap (λ k. some (waiting b [] size k a, es ++ fs))
                  (total_count parts.now parts.later ms c parts.in_order),
          handed-append es fs
              ∙ ap (λ t. t ++ handed fs) calls
              ∙ ap (λ t. payloads parts.now ++ t) more
              ∙ sym (payloads-append parts.now parts.later)
              ∙ ap payloads (sym parts.in_order),
        )

    -- One side receives the frames of a sender's messages, of lengths that it takes and in frames
    -- of less than 2 ^ 64 bytes, cut in any way, where one read is outstanding and nothing is left
    -- over: afterwards no byte is left, the next read is outstanding again, the payloads of the
    -- messages that the protocol takes are handed on, in order, and one close is posted for each
    -- message that it refuses.
    pub run-frames :
        (chunks ms : List (List ℕ)) (b : Binary) (size c : ℕ) (a : Bool)
        → All (IsSendable p (validate_length b)) ms
        → flatten chunks ≡ frames p ms
        → let s : Session = record {
          binary = b;
          unpacked = [];
          read_buffer = size;
          receiving = 1;
          closes = c;
          active = a;
        } in
          (es : List Event) × (run p tag_policy hash unpack_message (receive_all chunks) s
            ≡ some (record s { closes = refusals ms + c }, es))
          × (handed es ≡ payloads ms)
    unfolding round
    run-frames chunks ms b size c a all whole =
        frames-waiting chunks ms b [] size c a all (λ m rest e. cc e) whole
