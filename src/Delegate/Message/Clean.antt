-- ===== src/Delegate/Message/Clean.antt =====
-- The calls that the delegate makes for a part of a sender's frames.
use dep_srpc.Base.{
  ℕ, zero, suc, ◌+◌, ◌<◌, ◌≡◌, ◌≢◌, refl, ap, sym, ◌∙◌, arith, Bool, some, inl, inr, All,
}
use dep_srpc.Base.{
  List, [], ◌∷◌, ◌++◌, length, append_assoc, append-nil, append_split, length-append,
}
use dep_srpc.SizePack.Policy.{Policy, IsPrefix, IsCodec}
use dep_srpc.Delegate.Message.{
  Event, message, need_read, deliver, reject, wait, overrun, round, drain, on_data,
}
use dep_srpc.Delegate.Message.Drain.{Round-cases, round-append, round-overrun, rest_shorter}
use dep_srpc.Delegate.Message.Frames.{frames, IsSendable, round-frame}

unfoldable pub as_messages : List (List ℕ) → List Event
as_messages [] = []
as_messages (m ∷ ms) = message m ∷ as_messages ms

module _ (p : Policy) (validate_length : ℕ → Bool) (law : IsPrefix p) (codec : IsCodec p) where
  round-reject :
      (bs : List ℕ)
      → round p validate_length bs ≡ reject
      → (p.max_length < length bs) × (p.size_length bs < p.min_length)
  unfolding round
  round-reject bs e = ground arith

  -- A part of a sender's bytes is never refused for its prefix.
  frames-accepted :
      (bs more : List ℕ) (ms : List (List ℕ))
      → All (IsSendable p validate_length) ms
      → bs ++ more ≡ frames p ms
      → round p validate_length bs ≢ reject
  unfolding frames
  frames-accepted bs more [] h whole e =
      let (long, short) = round-reject bs e in
      absurd (omega (arith, long, length-append bs more, ap length whole))
  frames-accepted bs more (m ∷ ms) ((fits, valid, small), hs) whole e =
      let (long, short) = round-reject bs e in
      let (low, high) = codec.length_pack (length m) fits in
      let (ts, front, back) =
        append_split bs more (p.pack (length m)) (m ++ frames p ms) whole (omega arith) in
      let size : p.size_length bs ≡ length (p.pack (length m)) =
        ap p.size_length front ∙ codec.size_length_pack (length m) ts fits in
      absurd (omega arith)

  -- Nor does its length wrap around: it is that of the frame.
  frames_inside :
      (bs more : List ℕ) (ms : List (List ℕ))
      → All (IsSendable p validate_length) ms
      → bs ++ more ≡ frames p ms
      → round p validate_length bs ≢ overrun
  unfolding frames
  frames_inside bs more [] h whole e =
      let (complete, valid, behind, passed) = round-overrun p validate_length law bs e in
      absurd (
        omega (
          arith,
          complete,
          law.min_pos,
          law.size_length_le bs,
          length-append bs more,
          ap length whole,
        ))
  frames_inside bs more (m ∷ ms) ((fits, valid, small), hs) whole e =
      let (complete, taken, behind, passed) = round-overrun p validate_length law bs e in
      let size : p.size_length bs ≡ length (p.pack (length m)) =
        sym (law.size_length_append bs more complete)
        ∙ ap p.size_length whole
        ∙ codec.size_length_pack (length m) (m ++ frames p ms) fits in
      let number : p.unpack bs ≡ length m =
        sym (law.unpack_append bs more complete)
        ∙ ap p.unpack whole
        ∙ codec.unpack_pack (length m) (m ++ frames p ms) fits in
      absurd (omega (arith, size, number, behind, passed, small))

  -- What the loop does with a part of the frames of some messages: it delivers the first ones, and
  -- leaves the start of the others' frames.
  pub record Parts (bs more : List ℕ) (ms : List (List ℕ)) (left : List ℕ) (es : List Event)
      : Type 0 where
    pub now : List (List ℕ)
    pub later : List (List ℕ)
    pub calls : es ≡ as_messages now
    pub in_order : ms ≡ now ++ later
    pub sendable : All (IsSendable p validate_length) later
    pub stream : left ++ more ≡ frames p later
    pub settled : (m rest : List ℕ) → round p validate_length left ≢ deliver m rest

  round-nil : round p validate_length [] ≡ wait
  unfolding round
  round-nil = refl

  frames-deliver :
      (bs m rest more : List ℕ) (ms : List (List ℕ))
      → All (IsSendable p validate_length) ms
      → bs ++ more ≡ frames p ms
      → round p validate_length bs ≡ deliver m rest
      → (ns : List (List ℕ)) × (ms ≡ m ∷ ns)
        × All (IsSendable p validate_length) ns
        × (rest ++ more ≡ frames p ns)
  unfolding frames
  frames-deliver bs m rest more [] h whole e =
      let same : deliver m (rest ++ more) ≡ wait =
        sym (round-append p validate_length law bs m rest more e)
        ∙ ap (round p validate_length) whole
        ∙ round-nil in
      absurd (cc same)
  frames-deliver bs m rest more (n ∷ ns) (h, hs) whole e =
      let same : deliver m (rest ++ more) ≡ deliver n (frames p ns) =
        sym (round-append p validate_length law bs m rest more e)
        ∙ ap (round p validate_length) whole
        ∙ round-frame p validate_length law codec n (frames p ns) h in
      (ns, cc same, hs, cc same)

  drain-Parts :
      (fuel : ℕ) (bs more : List ℕ) (ms : List (List ℕ))
      → length bs < fuel
      → All (IsSendable p validate_length) ms
      → bs ++ more ≡ frames p ms
      → (left : List ℕ) × (es : List Event) × (drain p validate_length fuel bs ≡ some (left, es))
        × Parts bs more ms left es
  unfolding drain as_messages
  drain-Parts zero bs more ms h all whole = absurd (omega arith)
  drain-Parts (suc fuel) bs more ms h all whole = elim (Round-cases (round p validate_length bs)) [
    | inl (m, rest, e) ↦
        let (ns, same, hs, stream) = frames-deliver bs m rest more ms all whole e in
        let (left, es, q, parts) =
          drain-Parts fuel rest more ns
            (omega (arith, rest_shorter p validate_length law bs m rest e)) hs stream in
        (
          left,
          message m ∷ es,
          rw (e, drain, q),
          record {
            now = m ∷ parts.now;
            later = parts.later;
            calls = ap (λ t. message m ∷ t) parts.calls;
            in_order = same ∙ ap (λ t. m ∷ t) parts.in_order;
            sendable = parts.sendable;
            stream = parts.stream;
            settled = parts.settled;
          },
        )
    | inr (inl e) ↦ absurd (frames-accepted bs more ms all whole e)
    | inr (inr (inr e)) ↦ absurd (frames_inside bs more ms all whole e)
    | inr (inr (inl e)) ↦ (
      bs,
      [],
      rw (e, drain),
      record {
        now = [];
        later = ms;
        calls = refl;
        in_order = refl;
        sendable = all;
        stream = whole;
        settled = λ m rest q. cc (e, q);
      },
    )
  ]

  -- A call of `on_data` in the middle of a sender's frames.
  pub on_data-Parts :
      (unpacked bytes more : List ℕ) (ms : List (List ℕ))
      → All (IsSendable p validate_length) ms
      → unpacked ++ (bytes ++ more) ≡ frames p ms
      → (left : List ℕ) × (es : List Event) × (on_data p validate_length unpacked bytes
          ≡ some (left, es ++ need_read ∷ []))
        × Parts (unpacked ++ bytes) more ms left es
  unfolding on_data
  on_data-Parts unpacked bytes more ms all whole =
      let bs : List ℕ = unpacked ++ bytes in
      let (left, es, e, parts) =
        drain-Parts (length bs + 1) bs more ms (omega arith) all
          (append_assoc unpacked bytes more ∙ whole) in
      (left, es, rw e refl, parts)

  -- The loop stops on nothing less than a whole number of frames where no bytes are to come.
  pub settled-frames :
      (left : List ℕ) (ms : List (List ℕ))
      → All (IsSendable p validate_length) ms
      → left ++ [] ≡ frames p ms
      → ((m rest : List ℕ) → round p validate_length left ≢ deliver m rest)
      → (left ≡ []) × (ms ≡ [])
  unfolding frames
  settled-frames left [] h whole settled = (sym (append-nil left) ∙ whole, refl)
  settled-frames left (m ∷ ms) (h, hs) whole settled = absurd (
      settled m (frames p ms) (
        ap (round p validate_length) (sym (append-nil left) ∙ whole)
        ∙ round-frame p validate_length law codec m (frames p ms) h))
