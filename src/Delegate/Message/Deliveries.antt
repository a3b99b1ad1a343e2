-- ===== src/Delegate/Message/Deliveries.antt =====
-- The delegate reads back the frames that a sender writes.
use dep_srpc.Base.{
  ℕ, ◌≡◌, ◌≢◌, refl, ap, sym, ◌∙◌, Bool, some, All, List, [], ◌∷◌, ◌++◌, flatten, append_assoc,
}
use dep_srpc.SizePack.Policy.{Policy, IsPrefix, IsCodec}
use dep_srpc.Delegate.Message.{Event, need_read, messages, deliver, round, on_data_all}
use dep_srpc.Delegate.Message.Drain.{messages-append}
use dep_srpc.Delegate.Message.Frames.{frames, IsSendable}
use dep_srpc.Delegate.Message.Clean.{as_messages, on_data-Parts, settled-frames}

messages-as_messages : (ms : List (List ℕ)) → messages (as_messages ms) ≡ ms
unfolding messages as_messages
messages-as_messages [] = refl
messages-as_messages (m ∷ ms) = ap (λ t. m ∷ t) (messages-as_messages ms)

messages_read :
    (es fs : List Event) → messages ((es ++ need_read ∷ []) ++ fs) ≡ messages es ++ messages fs
unfolding messages
messages_read es fs =
    ap messages (append_assoc es (need_read ∷ []) fs) ∙ messages-append es (need_read ∷ fs)

module _ (p : Policy) (validate_length : ℕ → Bool) (law : IsPrefix p) (codec : IsCodec p) where
  frames_from :
      (unpacked : List ℕ) (chunks ms : List (List ℕ))
      → All (IsSendable p validate_length) ms
      → ((m rest : List ℕ) → round p validate_length unpacked ≢ deliver m rest)
      → unpacked ++ flatten chunks ≡ frames p ms
      → (es : List Event) × (on_data_all p validate_length unpacked chunks ≡ some ([], es))
        × (messages es ≡ ms)
  unfolding on_data_all messages
  frames_from unpacked [] ms all settled whole =
      let (left, none_left) =
        settled-frames p validate_length law codec unpacked ms all whole settled in
      ([], ap (λ t. some (t, [])) left, sym none_left)
  frames_from unpacked (bytes ∷ chunks) ms all settled whole =
      let (left, ds, e, parts) =
        on_data-Parts p validate_length law codec unpacked bytes (flatten chunks) ms all whole in
      let (es, f, later) =
        frames_from left chunks parts.later parts.sendable parts.settled parts.stream in
      let now : messages ds ≡ parts.now =
        ap messages parts.calls ∙ messages-as_messages parts.now in
      (
        (ds ++ need_read ∷ []) ++ es,
        rw (e, on_data_all, f) refl,
        messages_read ds es
            ∙ ap (λ t. t ++ messages es) now
            ∙ ap (λ t. parts.now ++ t) later
            ∙ sym parts.in_order,
      )

  -- Whatever pieces the frames of some messages arrive in, exactly these messages are delivered,
  -- in order, and no byte is left.
  pub on_data_all-frames :
      (ms : List (List ℕ)) (chunks : List (List ℕ))
      → All (IsSendable p validate_length) ms
      → flatten chunks ≡ frames p ms
      → (es : List Event) × (on_data_all p validate_length [] chunks ≡ some ([], es))
        × (messages es ≡ ms)
  unfolding round
  on_data_all-frames ms chunks all whole = frames_from [] chunks ms all (λ m rest e. cc e) whole
