-- ===== src/Delegate/Message/Chunks.antt =====
-- `on_data` ends, and what it delivers does not depend on how the transport cuts the stream.
use mathlib.Core.Path.{subst}
use dep_srpc.Base.{ℕ, ◌+◌, ◌^◌, ◌≤◌, ◌<◌, ◌≡◌, refl, sym, ◌∙◌, arith}
use dep_srpc.Base.{Bool, some, length-append}
use dep_srpc.Base.{List, [], ◌∷◌, ◌++◌, length, flatten, append_assoc, append-nil}
use dep_srpc.SizePack.Policy.{Policy, IsPrefix}
use dep_srpc.Delegate.Message.{Event, need_read, messages, round, on_data, on_data_all}
use dep_srpc.Delegate.Message.Drain.{
  messages-append, IsBounded, Drains, Drains-shorter, stop, next, drain-Drains, Drains-append,
  Drains-unique,
}

settled-nil : (p : Policy) (validate_length : ℕ → Bool) → Drains p validate_length [] [] []
unfolding round
settled-nil p validate_length = stop λ m rest e. cc e

module _ (p : Policy) (validate_length : ℕ → Bool) (law : IsPrefix p)
    (bounded : IsBounded p validate_length) where
  pub on_data-Drains :
      (unpacked bytes : List ℕ)
      → length (unpacked ++ bytes) < 2 ^ 63
      → (left : List ℕ) × (es : List Event) × (on_data p validate_length unpacked bytes
          ≡ some (left, es))
        × Drains p validate_length (unpacked ++ bytes) (messages es) left
  unfolding on_data messages
  on_data-Drains unpacked bytes short =
      let all : List ℕ = unpacked ++ bytes in
      let (left, es, e, d) =
        drain-Drains p validate_length law (length all + 1) all (omega arith) bounded short in
      (
        left,
        es ++ need_read ∷ [],
        rw e,
        subst (λ ms. Drains p validate_length all ms left)
            (sym (messages-append es (need_read ∷ []) ∙ append-nil (messages es))) d,
      )

  -- `on_data` ends on every input of less than 2 ^ 63 bytes: the loop never runs out of rounds, nor
  -- reads behind its bytes.
  pub on_data_total :
      (unpacked bytes : List ℕ)
      → length (unpacked ++ bytes) < 2 ^ 63
      → (left : List ℕ) × (es : List Event) × (on_data p validate_length unpacked bytes
          ≡ some (left, es))
        × (length left ≤ length (unpacked ++ bytes))
  on_data_total unpacked bytes short =
      let (left, es, e, d) = on_data-Drains unpacked bytes short in
      (left, es, e, Drains-shorter p validate_length law d)

  -- What is left is settled: the loop would stop at once on it.
  Drains-settled :
      {bs left : List ℕ} {ms : List (List ℕ)}
      → Drains p validate_length bs ms left
      → Drains p validate_length left [] left
  Drains-settled (stop h) = stop h
  Drains-settled (next e d) = Drains-settled d

  pub on_data_all-Drains :
      (unpacked : List ℕ) (chunks : List (List ℕ))
      → Drains p validate_length unpacked [] unpacked
      → length (unpacked ++ flatten chunks) < 2 ^ 63
      → (left : List ℕ) × (es : List Event) × (on_data_all p validate_length unpacked chunks
          ≡ some (left, es))
        × Drains p validate_length (unpacked ++ flatten chunks) (messages es) left
  unfolding on_data_all messages
  on_data_all-Drains unpacked [] settled short = (
    unpacked,
    [],
    refl,
    subst (λ t. Drains p validate_length t [] unpacked) (sym (append-nil unpacked)) settled,
  )
  on_data_all-Drains unpacked (bytes ∷ chunks) settled short =
      let (left, es, e, d) = on_data-Drains unpacked bytes (
        omega (
          arith,
          short,
          length-append unpacked (bytes ++ flatten chunks),
          length-append bytes (flatten chunks),
          length-append unpacked bytes,
        )) in
      let (left', es', e', d') = on_data_all-Drains left chunks (Drains-settled d) (
        omega (
          arith,
          short,
          length-append unpacked (bytes ++ flatten chunks),
          length-append bytes (flatten chunks),
          length-append unpacked bytes,
          length-append left (flatten chunks),
          Drains-shorter p validate_length law d,
        )) in
      (left', es ++ es', rw (e, on_data_all, e'), joined es es' d d')
    where
      joined :
          {left left' : List ℕ} (es es' : List Event)
          → Drains p validate_length (unpacked ++ bytes) (messages es) left
          → Drains p validate_length (left ++ flatten chunks) (messages es') left'
          → Drains p validate_length
              (unpacked ++ (bytes ++ flatten chunks))
              (messages (es ++ es'))
              left'
      joined es es' d d' =
          rw (messages-append es es', ← append_assoc unpacked bytes (flatten chunks))
            (Drains-append p validate_length law (flatten chunks) d d')

  -- With lengths that are refused, or cannot be held by the prefix, from 2 ^ 63 on, and less than
  -- 2 ^ 63 bytes: however the transport cuts the bytes, `on_data` ends, the same messages are
  -- delivered, and the same bytes wait.
  pub on_data_all-flatten :
      (chunks : List (List ℕ))
      → length (flatten chunks) < 2 ^ 63
      → (left : List ℕ) × (es fs : List Event) × (on_data_all p validate_length [] chunks
          ≡ some (left, es))
        × (on_data p validate_length [] (flatten chunks) ≡ some (left, fs))
        × (messages es ≡ messages fs)
  on_data_all-flatten chunks short =
      let (left, es, e, d) = on_data_all-Drains [] chunks (settled-nil p validate_length) short in
      let (left', fs, e', d') = on_data-Drains [] (flatten chunks) short in
      let (same, same_left) = Drains-unique p validate_length d d' refl in
      (left, es, fs, e, rw same_left e', same)
