-- ===== src/Delegate/Message/Drain.antt =====
-- The loop of `on_data` as a relation: which messages are cut off, and what is left.
use dep_srpc.Base.{ℕ, zero, suc, ◌+◌, ◌%◌, ◌^◌, ◌≤◌, ◌<◌, ◌≡◌, refl, ap, sym, ◌∙◌, arith, ◌≢◌}
use dep_srpc.Base.{Bool, true, some, ◌⊎◌, inl, inr}
use dep_srpc.Base.{
  List, [], ◌∷◌, ◌++◌, length, take, drop, length-drop, length-append, take-append_le,
  drop-append_le,
}
use dep_srpc.SizePack.Policy.{Policy, IsPrefix}
use dep_srpc.Delegate.Message.{
  Event, message, error, need_read, messages, Round, deliver, reject, wait, overrun, round, drain,
}

pub messages-append : (es fs : List Event) → messages (es ++ fs) ≡ messages es ++ messages fs
unfolding messages
messages-append [] fs = refl
messages-append (message m ∷ es) fs = ap (λ t. m ∷ t) (messages-append es fs)
messages-append (error ∷ es) fs = messages-append es fs
messages-append (need_read ∷ es) fs = messages-append es fs

pub Round-cases :
    (r : Round)
    → ((m : List ℕ) × (rest : List ℕ) × (r ≡ deliver m rest))
      ⊎ (r ≡ reject)
      ⊎ (r ≡ wait)
      ⊎ (r ≡ overrun)
Round-cases (deliver m rest) = inl (m, rest, refl)
Round-cases reject = inr (inl refl)
Round-cases wait = inr (inr (inl refl))
Round-cases overrun = inr (inr (inr refl))

module _ (p : Policy) (validate_length : ℕ → Bool) where
  -- A round that delivers: the prefix is complete, its length is valid, and the bytes are there.
  pub record Delivers (bs m rest : List ℕ) : Type 0 where
    pub complete : p.min_length ≤ p.size_length bs
    pub valid : validate_length (p.unpack bs) ≡ true
    pub enough : p.unpack bs + p.size_length bs ≤ length bs
    pub body : m ≡ take (p.unpack bs) (drop (p.size_length bs) bs)
    pub left : rest ≡ drop (p.size_length bs + p.unpack bs) bs

  pub round-Delivers :
      (bs m rest : List ℕ) → round p validate_length bs ≡ deliver m rest → Delivers bs m rest
  unfolding round
  round-Delivers bs m rest e = ground arith

  pub Delivers-round :
      (bs m rest : List ℕ)
      → 1 ≤ p.min_length
      → p.size_length bs ≤ length bs
      → Delivers bs m rest
      → round p validate_length bs ≡ deliver m rest
  unfolding round
  Delivers-round bs m rest pos le d = ground arith

  -- The messages that the loop cuts off `bs`, and what it leaves.
  pub data Drains : List ℕ → List (List ℕ) → List ℕ → Type 0 where
    stop :
        {bs : List ℕ}
        → ((m rest : List ℕ) → round p validate_length bs ≢ deliver m rest)
        → Drains bs [] bs
    next :
        {bs m rest left : List ℕ} {ms : List (List ℕ)}
        → round p validate_length bs ≡ deliver m rest
        → Drains rest ms left
        → Drains bs (m ∷ ms) left

  -- A valid length is far below the numbers of a `size_t`: its owner refuses longer ones, or the
  -- prefix cannot hold them.
  abbrev pub IsBounded : Type 0
  IsBounded = (bs : List ℕ) → validate_length (p.unpack bs) ≡ true → p.unpack bs < 2 ^ 63

  module _ (law : IsPrefix p) where
    -- What passes the test by wrapping around.
    pub round-overrun :
        (bs : List ℕ)
        → round p validate_length bs ≡ overrun
        → (p.min_length ≤ p.size_length bs)
          × (validate_length (p.unpack bs) ≡ true)
          × (length bs < p.unpack bs + p.size_length bs)
          × ((p.unpack bs + p.size_length bs) % 2 ^ 64 ≤ length bs)
    unfolding round
    round-overrun bs e = ground arith

    no_overrun :
        (bs : List ℕ) → IsBounded → length bs < 2 ^ 63 → round p validate_length bs ≢ overrun
    no_overrun bs bounded short e =
        let (complete, valid, behind, passed) = round-overrun bs e in
        absurd (omega (arith, behind, passed, short, bounded bs valid, law.size_length_le bs))

    pub rest_shorter :
        (bs m rest : List ℕ) → round p validate_length bs ≡ deliver m rest → length rest < length bs
    rest_shorter bs m rest e = ground (
      arith,
      round-Delivers bs m rest e,
      law.min_pos,
      ap length (round-Delivers bs m rest e).left,
      length-drop (p.size_length bs + p.unpack bs) bs,
    )

    -- The loop ends within its fuel, and does what the relation says.
    pub drain-Drains :
        (fuel : ℕ) (bs : List ℕ)
        → length bs < fuel
        → IsBounded
        → length bs < 2 ^ 63
        → (left : List ℕ) × (es : List Event) × (drain p validate_length fuel bs ≡ some (left, es))
          × Drains bs (messages es) left
    unfolding drain messages
    drain-Drains zero bs h bounded short = absurd (omega arith)
    drain-Drains (suc fuel) bs h bounded short = elim (Round-cases (round p validate_length bs)) [
      | inl (m, rest, e) ↦
          let (left, es, q, d) =
            drain-Drains fuel rest (omega (arith, rest_shorter bs m rest e)) bounded
              (omega (arith, short, rest_shorter bs m rest e)) in
          (left, message m ∷ es, rw (e, drain, q), next e d)
      | inr (inl e) ↦ (bs, error ∷ [], rw (e, drain), stop λ m rest q. cc (e, q))
      | inr (inr (inl e)) ↦ (bs, [], rw (e, drain), stop λ m rest q. cc (e, q))
      | inr (inr (inr e)) ↦ absurd (no_overrun bs bounded short e)
    ]

    pub round-append :
        (bs m rest more : List ℕ)
        → round p validate_length bs ≡ deliver m rest
        → round p validate_length (bs ++ more) ≡ deliver m (rest ++ more)
    round-append bs m rest more e =
        Delivers-round (bs ++ more) m (rest ++ more) law.min_pos (law.size_length_le _) record {
          complete = rw size d.complete;
          valid = rw number d.valid;
          enough = rw (size, number, length-append bs more) (omega (arith, d.enough));
          body =
              d.body
              ∙ rw (size, number, drop-append_le (p.size_length bs) bs more prefix)
                  (sym (
                    take-append_le (p.unpack bs) (drop (p.size_length bs) bs) more
                      (omega (arith, length-drop (p.size_length bs) bs, d.enough))));
          left =
              rw (size, number)
                (ap (λ t. t ++ more) d.left
                  ∙ sym (
                      drop-append_le (p.size_length bs + p.unpack bs) bs more
                        (omega (arith, d.enough))));
        }
      where
        d : Delivers bs m rest
        d = round-Delivers bs m rest e

        prefix : p.size_length bs ≤ length bs
        prefix = law.size_length_le bs

        size : p.size_length (bs ++ more) ≡ p.size_length bs
        size = law.size_length_append bs more d.complete

        number : p.unpack (bs ++ more) ≡ p.unpack bs
        number = law.unpack_append bs more d.complete

    pub Drains-append :
        {bs r left : List ℕ} {ms ns : List (List ℕ)} (more : List ℕ)
        → Drains bs ms r
        → Drains (r ++ more) ns left
        → Drains (bs ++ more) (ms ++ ns) left
    Drains-append more (stop h) after = after
    Drains-append more (next {bs} {m} {rest} e d) after =
        next (round-append bs m rest more e) (Drains-append more d after)

  module _ (law : IsPrefix p) where
    pub Drains-shorter :
        {bs left : List ℕ} {ms : List (List ℕ)} → Drains bs ms left → length left ≤ length bs
    Drains-shorter (stop h) = omega arith
    Drains-shorter (next {bs} {m} {rest} e d) =
        omega (arith, rest_shorter law bs m rest e, Drains-shorter d)

  pub Drains-unique :
      {bs cs l l' : List ℕ} {ms ms' : List (List ℕ)}
      → Drains bs ms l
      → Drains cs ms' l'
      → bs ≡ cs
      → (ms ≡ ms') × (l ≡ l')
  Drains-unique (stop h) (stop h') e = (refl, e)
  Drains-unique (stop h) (next {m} {rest} e' d') e =
      absurd (h m rest (ap (round p validate_length) e ∙ e'))
  Drains-unique (next {m} {rest} e' d) (stop h) e =
      absurd (h m rest (ap (round p validate_length) (sym e) ∙ e'))
  Drains-unique (next {m} {rest} q d) (next {m = m'} {rest = rest'} q' d') e =
      let same : deliver m rest ≡ deliver m' rest' = sym q ∙ ap (round p validate_length) e ∙ q' in
      let (es, el) = Drains-unique d d' (cc same) in (cc (es, same), el)
