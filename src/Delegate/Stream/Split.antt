-- ===== src/Delegate/Stream/Split.antt =====
-- One round of the loop, on bytes that continue the frames of a sender.
use dep_srpc.Base.{
  ℕ, ◌+◌, ◌-◌, ◌≤◌, ◌<◌, ◌≡◌, refl, ap, sym, ◌∙◌, arith, inl, inr, Bool, true, false, Bool-cases,
  ltb, leb, All,
}
use dep_srpc.Base.{
  List, [], ◌∷◌, ◌++◌, length, take, drop, append_split, append_assoc, append-nil, length-append,
  length-take, length-drop, take-append-drop, take-append, drop-append,
}
use dep_srpc.SizePack.Policy.{Policy, IsPrefix, IsCodec}
use dep_srpc.Delegate.Message.Frames.{frames, IsTaken}
use dep_srpc.Delegate.Stream.{
  Event, stream_begin, State, update_cursor, max_len, minimum, begin_stream, start_new_stream,
}
use dep_srpc.Delegate.Stream.Marks.{Mark, ends, bytes_of, marks, expected, bytes_of-append}

short_lem : (a b : ℕ) → leb a b ≡ false → b < a
short_lem a b h = ground arith

module _ (p : Policy) (validate_length : ℕ → Bool) where
  -- Where the delegate stands in the frames of some messages: `left` are the bytes to come, and
  -- `owed` the calls that they will make. It waits for a prefix, or it is inside a message.
  pub data At : List ℕ → ℕ → List ℕ → List Mark → Type 0 where
    at_prefix :
        {tmp : List ℕ} {left : List ℕ} {cursor : ℕ} {owed : List Mark} (ms : List (List ℕ))
        → cursor ≡ 0
        → All (IsTaken p validate_length) ms
        → tmp ++ left ≡ frames p ms
        → p.size_length tmp < p.min_length
        → owed ≡ expected ms
        → At tmp cursor left owed
    in_body :
        {tmp : List ℕ} {left : List ℕ} {cursor : ℕ} {owed : List Mark} (r : List ℕ)
        (ms : List (List ℕ))
        → tmp ≡ []
        → cursor ≡ length r
        → 0 < length r
        → All (IsTaken p validate_length) ms
        → left ≡ r ++ frames p ms
        → owed ≡ bytes_of r ++ ends ∷ expected ms
        → At tmp cursor left owed

  -- A step that was right, from a buffer of `size` bytes: the state stands where it should, and the
  -- calls made are those owed.
  pub record Right (size : ℕ) (rest : List ℕ) (owed : List Mark) (r : State × List Event)
      : Type 0 where
    pub owed' : List Mark
    pub stands : At r.0.tmp r.0.cursor (r.0.buff ++ rest) owed'
    pub paid : marks r.1 ++ owed' ≡ owed
    pub shorter : length r.0.buff ≤ size - 1

  module _ (law : IsPrefix p) where
    pub empty_incomplete : p.size_length [] < p.min_length
    empty_incomplete = omega (arith, law.size_length_le [], law.min_pos)

    pub update-Right :
        (r : List ℕ) (ms : List (List ℕ)) (chunk rest : List ℕ)
        → 0 < length r
        → All (IsTaken p validate_length) ms
        → chunk ++ rest ≡ r ++ frames p ms
        → Right
            (length chunk)
            rest
            (bytes_of r ++ ends ∷ expected ms)
            (update_cursor (record { tmp = []; cursor = length r; buff = chunk }))
    unfolding update_cursor marks
    update-Right r ms chunk rest pos fit whole = elim (Bool-cases (leb (length r) (length chunk))) [
      | inl enough ↦
          let (more, front, back) = append_split chunk rest r (frames p ms) whole (ground arith) in
          rw (enough, front, take-append r more, drop-append r more)
            (record {
              owed' = expected ms;
              stands = at_prefix ms refl fit (sym back) empty_incomplete refl;
              paid = append_assoc (bytes_of r) (ends ∷ []) (expected ms);
              shorter = omega (arith, length-append r more);
            })
      | inr short ↦
          let (more, front, back) =
            append_split r (frames p ms) chunk rest (sym whole) (ground arith) in
          let sizes : length r ≡ length chunk + length more =
            ap length front ∙ length-append chunk more in
          rw short (record {
            owed' = bytes_of more ++ ends ∷ expected ms;
            stands =
                in_body more ms refl (omega (arith, sizes))
                  (omega (arith, sizes, (short_lem (length r) (length chunk) short))) fit back refl;
            paid =
                rw (append-nil (bytes_of chunk), front, bytes_of-append chunk more)
                  (sym (append_assoc (bytes_of chunk) (bytes_of more) (ends ∷ expected ms)));
            shorter = omega arith;
          })
    ]

    module _ (codec : IsCodec p) where
      -- Bytes that end inside the prefix of a value do not look complete.
      prefix_incomplete :
          (v : ℕ) (bs ts rest : List ℕ)
          → v < p.limit
          → bs ++ ts ≡ p.pack v ++ rest
          → length bs < length (p.pack v)
          → p.size_length bs < p.min_length
      prefix_incomplete v bs ts rest fits e short =
          elim (Bool-cases (ltb (p.size_length bs) (p.min_length))) [
            | inl h ↦ ground arith
            | inr h ↦
                let complete : p.min_length ≤ p.size_length bs = ground arith in
                let size : p.size_length (bs ++ ts) ≡ length (p.pack v) =
                  ap p.size_length e ∙ codec.size_length_pack v rest fits in
                absurd (
                  omega (arith, size, law.size_length_append bs ts complete, law.size_length_le bs))
          ]

      -- A complete prefix is longer than what stood in `tmp`.
      longer_than_tmp :
          (v : ℕ) (tmp ts rest : List ℕ)
          → v < p.limit
          → tmp ++ ts ≡ p.pack v ++ rest
          → p.size_length tmp < p.min_length
          → length tmp < length (p.pack v)
      longer_than_tmp v tmp ts rest fits e open_ =
          elim (Bool-cases (ltb (length tmp) (length (p.pack v)))) [
            | inl h ↦ ground arith
            | inr h ↦
                let (more, front, back) = append_split tmp ts (p.pack v) rest e (ground arith) in
                let size : p.size_length tmp ≡ length (p.pack v) =
                  ap p.size_length front ∙ codec.size_length_pack v more fits in
                absurd (omega (arith, size, (codec.length_pack v fits).0))
          ]

      pub frames_cons :
          (m : List ℕ) (ms : List (List ℕ))
          → frames p (m ∷ ms) ≡ p.pack (length m) ++ (m ++ frames p ms)
      unfolding frames
      frames_cons m ms = refl

      -- The bytes of the message begin: the rest of the buffer is that behind the prefix.
      begin-Right :
          (size : ℕ) (m : List ℕ) (ms : List (List ℕ)) (buff rest : List ℕ)
          → length buff ≤ size - 1
          → IsTaken p validate_length m
          → All (IsTaken p validate_length) ms
          → buff ++ rest ≡ m ++ frames p ms
          → Right size rest
              (expected (m ∷ ms))
              (record { tmp = []; cursor = length m; buff = buff }, stream_begin (length m) ∷ [])
      unfolding expected marks
      begin-Right size [] ms buff rest le h hs e = record {
        owed' = expected ms;
        stands = at_prefix ms refl hs e empty_incomplete refl;
        paid = refl;
        shorter = le;
      }
      begin-Right size (b ∷ bs) ms buff rest le h hs e = record {
        owed' = bytes_of (b ∷ bs) ++ ends ∷ expected ms;
        stands = in_body (b ∷ bs) ms refl refl (omega arith) hs e refl;
        paid = refl;
        shorter = le;
      }

      begin_complete :
          (s : State) (tmp : List ℕ) (packed : ℕ)
          → p.min_length ≤ packed
          → validate_length (p.unpack tmp) ≡ true
          → begin_stream p validate_length s tmp packed ≡ (
            record {
              tmp = [];
              cursor = p.unpack tmp;
              buff = drop (minimum p validate_length s.buff - (length tmp - packed)) s.buff;
            },
            stream_begin (p.unpack tmp) ∷ [],
          )
      unfolding begin_stream
      begin_complete s tmp packed le valid =
          let test : leb p.min_length packed ≡ true = ground arith in rw (test, valid) refl

      begin_partial :
          (s : State) (tmp : List ℕ) (packed : ℕ)
          → packed < p.min_length
          → length tmp ≤ p.max_length
          → begin_stream p validate_length s tmp packed
            ≡ (record s { tmp = tmp; buff = drop (minimum p validate_length s.buff) s.buff }, [])
      unfolding begin_stream max_len
      begin_partial s tmp packed lt le =
          let test : leb p.min_length packed ≡ false = ground arith in
          let room : leb (p.max_length + 1) (length tmp) ≡ false = ground arith in
          rw (test, room) refl

      minimum_le : (buff : List ℕ) → minimum p validate_length buff ≤ length buff
      unfolding minimum
      minimum_le buff = ground arith

      minimum_pos :
          (buff : List ℕ) → length buff ≤ minimum p validate_length buff + (length buff - 1)
      unfolding minimum max_len
      minimum_pos buff = ground arith

      -- The rest of the buffer behind a prefix that ends `s` bytes into it.
      behind_prefix :
          (k : ℕ) (chunk s more : List ℕ)
          → k ≤ length chunk
          → take k chunk ≡ s ++ more
          → drop (k - length more) chunk ≡ more ++ drop k chunk
      behind_prefix k chunk s more le took =
          let cut : k - length more ≡ length s =
            omega (arith, ap length took, length-append s more, length-take k chunk) in
          let whole : chunk ≡ s ++ (more ++ drop k chunk) =
            sym (take-append-drop k chunk)
            ∙ ap (λ t. t ++ drop k chunk) took
            ∙ append_assoc s more (drop k chunk) in
          ap (λ n. drop n chunk) cut
          ∙ ap (drop (length s)) whole
          ∙ drop-append s (more ++ drop k chunk)

      pub start-Right :
          (m : List ℕ) (ms : List (List ℕ)) (tmp chunk rest : List ℕ) (c : ℕ)
          → c ≡ 0
          → IsTaken p validate_length m
          → All (IsTaken p validate_length) ms
          → tmp ++ (chunk ++ rest) ≡ p.pack (length m) ++ (m ++ frames p ms)
          → p.size_length tmp < p.min_length
          → Right
              (length chunk)
              rest
              (expected (m ∷ ms))
              (start_new_stream p validate_length (record { tmp = tmp; cursor = c; buff = chunk }))
      unfolding start_new_stream
      start-Right m ms tmp chunk rest c z h hs whole open_ =
          elim (Bool-cases (leb (length prefix) (length grown))) [
            | inl complete ↦
                let (more, front, back) =
                  append_split grown (drop k chunk ++ rest) prefix (m ++ frames p ms) grown_whole
                    (ground arith) in
                let (s, all, took) =
                  append_split prefix more tmp (take k chunk) (sym front) (omega (arith, longer)) in
                let size : p.size_length grown ≡ length prefix =
                  ap p.size_length front ∙ codec.size_length_pack (length m) more h.0 in
                let number : p.unpack grown ≡ length m =
                  ap p.unpack front ∙ codec.unpack_pack (length m) more h.0 in
                let used : length grown - length prefix ≡ length more =
                  omega (arith, ap length front, length-append prefix more) in
                let taken : length chunk ≡ length s + length (more ++ drop k chunk) =
                  ap length (
                    sym (take-append-drop k chunk)
                    ∙ ap (λ t. t ++ drop k chunk) took
                    ∙ append_assoc s more (drop k chunk))
                  ∙ length-append s (more ++ drop k chunk) in
                let after = behind_prefix k chunk s more (minimum_le chunk) took in
                let e =
                  begin_complete (record { tmp = tmp; cursor = c; buff = chunk }) grown
                    (length prefix) (codec.length_pack (length m) h.0).0 (rw number h.1) in
                rw (size, e, number, used, after)
                  (begin-Right (length chunk) m ms (more ++ drop k chunk) rest
                    (omega (arith, taken, ap length all, length-append tmp s, longer)) h hs
                    (append_assoc more (drop k chunk) rest ∙ sym back))
            | inr partial ↦
                let short = short_lem (length prefix) (length grown) partial in
                let open_again =
                  prefix_incomplete (length m) grown (drop k chunk ++ rest) (m ++ frames p ms) h.0
                    grown_whole short in
                let e =
                  begin_partial (record { tmp = tmp; cursor = c; buff = chunk }) grown
                    (p.size_length grown) open_again
                    (omega (arith, short, (codec.length_pack (length m) h.0).1)) in
                rw e (record {
                  owed' = expected (m ∷ ms);
                  stands =
                      at_prefix (m ∷ ms) z (h, hs) (grown_whole ∙ sym (frames_cons m ms)) open_again
                        refl;
                  paid = unfold marks in refl;
                  shorter = omega (arith, length-drop k chunk, minimum_pos chunk);
                })
          ]
        where
          prefix : List ℕ
          prefix = p.pack (length m)

          k : ℕ
          k = minimum p validate_length chunk

          grown : List ℕ
          grown = tmp ++ take k chunk

          longer : length tmp < length prefix
          longer = longer_than_tmp (length m) tmp (chunk ++ rest) (m ++ frames p ms) h.0 whole open_

          grown_whole : grown ++ (drop k chunk ++ rest) ≡ prefix ++ (m ++ frames p ms)
          grown_whole =
              append_assoc tmp (take k chunk) (drop k chunk ++ rest)
              ∙ ap (λ t. tmp ++ t)
                  (sym (append_assoc (take k chunk) (drop k chunk) rest)
                    ∙ ap (λ t. t ++ rest) (take-append-drop k chunk))
              ∙ whole
