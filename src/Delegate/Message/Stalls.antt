-- ===== src/Delegate/Message/Stalls.antt =====
-- The delegate stops for good at a length that its owner refuses.
use dep_srpc.Base.{
  ℕ, zero, suc, ◌+◌, ◌≤◌, ◌<◌, ◌≡◌, refl, ap, sym, ◌∙◌, arith, Bool, false, some, All,
}
use dep_srpc.Base.{List, [], ◌∷◌, ◌++◌, length, flatten, append_assoc, append-nil}
use dep_srpc.SizePack.Policy.{Policy, IsPrefix, IsCodec}
use dep_srpc.Delegate.Message.{Event, need_read, deliver, wait, round, drain, on_data, on_data_all}
use dep_srpc.Delegate.Message.Drain.{rest_shorter}
use dep_srpc.Delegate.Message.Frames.{frames, IsSendable, round-frame}
use dep_srpc.Delegate.Message.Clean.{as_messages}

-- One read for each call.
unfoldable pub only_reads : List (List ℕ) → List Event
only_reads [] = []
only_reads (c ∷ cs) = need_read ∷ only_reads cs

module _ (p : Policy) (validate_length : ℕ → Bool) (law : IsPrefix p) where
  -- A complete prefix in front, with a length that the owner refuses.
  abbrev pub IsRefused : List ℕ → Type 0
  IsRefused bs = (p.min_length ≤ p.size_length bs) × (validate_length (p.unpack bs) ≡ false)

  IsRefused-append : (bs more : List ℕ) → IsRefused bs → IsRefused (bs ++ more)
  IsRefused-append bs more (complete, refused) = (
    rw (law.size_length_append bs more complete) complete,
    rw (law.unpack_append bs more complete) refused,
  )

  round_refused : (bs : List ℕ) → IsRefused bs → round p validate_length bs ≡ wait
  unfolding round
  round_refused bs (complete, refused) = ground (arith, law.min_pos, law.size_length_le bs)

  drain_wait :
      (fuel : ℕ) (bs : List ℕ)
      → 0 < fuel
      → round p validate_length bs ≡ wait
      → drain p validate_length fuel bs ≡ some (bs, [])
  unfolding drain
  drain_wait zero bs h e = absurd (omega arith)
  drain_wait (suc fuel) bs h e = rw (e, drain)

  only_reads_after :
      (bs : List ℕ) (chunks : List (List ℕ))
      → IsRefused bs
      → on_data_all p validate_length bs chunks ≡ some (bs ++ flatten chunks, only_reads chunks)
  unfolding on_data_all on_data only_reads
  only_reads_after bs [] h = ap (λ t. some (t, [])) (sym (append-nil bs))
  only_reads_after bs (bytes ∷ chunks) h =
      let all : List ℕ = bs ++ bytes in
      let still : IsRefused all = IsRefused-append bs bytes h in
      rw
        (
          drain_wait (length all + 1) all (omega arith) (round_refused all still),
          on_data_all,
          only_reads_after all chunks still,
          append_assoc bs bytes (flatten chunks),
        )
        refl

  module _ (codec : IsCodec p) where
    drain-frames :
        (fuel : ℕ) (ms : List (List ℕ)) (bad : List ℕ)
        → length (frames p ms ++ bad) < fuel
        → All (IsSendable p validate_length) ms
        → IsRefused bad
        → drain p validate_length fuel (frames p ms ++ bad) ≡ some (bad, as_messages ms)
    unfolding drain frames as_messages
    drain-frames zero ms bad h all refused = absurd (omega arith)
    drain-frames (suc fuel) [] bad h all refused = rw (round_refused bad refused, drain) refl
    drain-frames (suc fuel) (m ∷ ms) bad h (sendable, all) refused =
        let rest : List ℕ = frames p ms ++ bad in
        let bytes : List ℕ = (p.pack (length m) ++ (m ++ frames p ms)) ++ bad in
        let whole : bytes ≡ p.pack (length m) ++ (m ++ rest) =
          append_assoc (p.pack (length m)) (m ++ frames p ms) bad
          ∙ ap (λ t. p.pack (length m) ++ t) (append_assoc m (frames p ms) bad) in
        let first : round p validate_length bytes ≡ deliver m rest =
          ap (round p validate_length) whole
          ∙ round-frame p validate_length law codec m rest sendable in
        let ih =
          drain-frames fuel ms bad
            (omega (arith, h, rest_shorter p validate_length law bytes m rest first)) all refused in
        rw (first, drain, ih) refl

    -- Messages that the owner takes, and behind them a complete prefix with a length that it
    -- refuses, arrive together, and then any other bytes: the messages are delivered, and from then
    -- on nothing is, and no error is reported either; each call only asks for the next read, and
    -- the bytes pile up.
    pub on_data_all-only_reads :
        (ms : List (List ℕ)) (bad : List ℕ) (chunks : List (List ℕ))
        → All (IsSendable p validate_length) ms
        → IsRefused bad
        → on_data_all p validate_length [] ((frames p ms ++ bad) ∷ chunks)
          ≡ some (bad ++ flatten chunks, as_messages ms ++ need_read ∷ only_reads chunks)
    unfolding on_data_all on_data
    on_data_all-only_reads ms bad chunks all refused =
        let bytes : List ℕ = frames p ms ++ bad in
        rw
          (
            drain-frames (length bytes + 1) ms bad (omega arith) all refused,
            on_data_all,
            only_reads_after bad chunks refused,
          )
          (ap (λ t. some (bad ++ flatten chunks, t))
            (append_assoc (as_messages ms) (need_read ∷ []) (only_reads chunks)))
