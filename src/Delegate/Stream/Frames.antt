-- ===== src/Delegate/Stream/Frames.antt =====
-- The calls that the frames of a sender make, however the transport cuts them.
use dep_srpc.Base.{
  ℕ, zero, suc, ◌+◌, ◌<◌, ◌≡◌, refl, ap, sym, ◌∙◌, arith, ◌⊎◌, inl, inr, Bool, true, false,
  Bool-cases, some, leb, ◌==◌, All,
}
use dep_srpc.Base.{List, [], ◌∷◌, ◌++◌, length, flatten, append_assoc, append-nil, length-append}
use mathlib.Core.Path.{subst}
use dep_srpc.SizePack.Policy.{Policy, IsPrefix, IsCodec}
use dep_srpc.Delegate.Message.Frames.{frames, IsTaken}
use dep_srpc.Delegate.Stream.{
  Event, need_read, State, update_cursor, start_if_left, start_new_stream, round, loop, on_data,
  on_data_all,
}
use dep_srpc.Delegate.Stream.Marks.{Mark, marks, marks-append, expected}
use dep_srpc.Delegate.Stream.Split.{
  At, at_prefix, in_body, Right, update-Right, start-Right, empty_incomplete, frames_cons,
}

-- An update ends the message or uses the buffer up.
update_settles : (s : State) → ((update_cursor s).0.cursor ≡ 0) ⊎ ((update_cursor s).0.buff ≡ [])
unfolding update_cursor
update_settles s = elim (Bool-cases (leb s.cursor (length s.buff))) [
  | inl e ↦ inl (rw e refl)
  | inr e ↦ inr (rw e refl)
]

nonempty_lem : (n : ℕ) → (n == 0) ≡ false → 0 < n
nonempty_lem n e = ground arith

expected_nil : expected [] ≡ []
unfolding expected
expected_nil = refl

need_read-marks : (es : List Event) → marks es ++ marks (need_read ∷ []) ≡ marks es
unfolding marks
need_read-marks es = append-nil (marks es)

module _ (p : Policy) (validate_length : ℕ → Bool) (law : IsPrefix p) (codec : IsCodec p) where
  no_frames : length (frames p []) ≡ 0
  unfolding frames
  no_frames = refl

  frames_nil : frames p [] ≡ []
  unfolding frames
  frames_nil = refl

  -- The second half of the body, where the cursor is 0.
  start-step :
      (s : State) (rest : List ℕ) (owed : List Mark)
      → s.cursor ≡ 0
      → 0 < length s.buff
      → At p validate_length s.tmp s.cursor (s.buff ++ rest) owed
      → Right p validate_length (length s.buff) rest owed (start_new_stream p validate_length s)
  start-step s rest owed z pos (in_body r ms tmp_empty cursor_is r_pos fit left_is owed_is) =
      absurd (omega arith)
  start-step s rest owed z pos (at_prefix [] cursor_is fit left_is open_ owed_is) = absurd (
      omega (
        arith,
        ap length left_is,
        length-append s.tmp (s.buff ++ rest),
        length-append s.buff rest,
        no_frames,
      ))
  start-step s rest owed z pos (at_prefix (m ∷ ms) cursor_is fit left_is open_ owed_is) =
      let right =
        start-Right p validate_length law codec m ms s.tmp s.buff rest s.cursor z fit.0 fit.1
          (left_is ∙ frames_cons p validate_length law codec m ms) open_ in
      rw owed_is right

  left-Right :
      (s : State) (rest : List ℕ) (owed : List Mark)
      → (s.cursor ≡ 0) ⊎ (s.buff ≡ [])
      → At p validate_length s.tmp s.cursor (s.buff ++ rest) owed
      → Right p validate_length (length s.buff) rest owed (start_if_left p validate_length s)
  unfolding start_if_left
  left-Right s rest owed settled a = elim (Bool-cases (length s.buff == 0)) [
    | inl e ↦
        rw (e, start_if_left)
          (record { owed' = owed; stands = a; paid = unfold marks in refl; shorter = ground arith })
    | inr e ↦ elim settled [
      | inl z ↦ rw (e, start_if_left) (start-step s rest owed z (ground arith) a)
      | inr empty ↦ absurd (ground (arith, ap length empty))
    ]
  ]

  -- A message that goes on.
  update-step :
      (s : State) (rest : List ℕ) (owed : List Mark)
      → (s.cursor == 0) ≡ false
      → At p validate_length s.tmp s.cursor (s.buff ++ rest) owed
      → Right p validate_length (length s.buff) rest owed (update_cursor s)
  update-step s rest owed nz (at_prefix ms cursor_is fit left_is open_ owed_is) =
      absurd (ground arith)
  update-step s rest owed nz (in_body r ms tmp_empty cursor_is pos fit left_is owed_is) =
      let right = update-Right p validate_length law r ms s.buff rest pos fit left_is in
      let e : record { tmp = []; cursor = length r; buff = s.buff } ≡ s =
        λ i. record { tmp = sym tmp_empty i; cursor = sym cursor_is i; buff = s.buff } in
      rw (← e, owed_is) right

  both-Right :
      (size : ℕ) (s1 : State) (es : List Event) (rest : List ℕ) (owed : List Mark)
      → (s1.cursor ≡ 0) ⊎ (s1.buff ≡ [])
      → Right p validate_length size rest owed (s1, es)
      → Right p validate_length size rest owed
          ((start_if_left p validate_length s1).0, es ++ (start_if_left p validate_length s1).1)
  both-Right size s1 es rest owed settled first =
      let second = left-Right s1 rest first.owed' settled first.stands in
      let more : List Event = (start_if_left p validate_length s1).1 in
      record {
        owed' = second.owed';
        stands = second.stands;
        paid =
            ap (λ t. t ++ second.owed') (marks-append es more)
            ∙ append_assoc (marks es) (marks more) second.owed'
            ∙ ap (λ t. marks es ++ t) second.paid
            ∙ first.paid;
        shorter = omega (arith, first.shorter, second.shorter);
      }

  round-Right :
      (s : State) (rest : List ℕ) (owed : List Mark)
      → At p validate_length s.tmp s.cursor (s.buff ++ rest) owed
      → Right p validate_length (length s.buff) rest owed (round p validate_length s)
  unfolding round
  round-Right s rest owed a = elim (Bool-cases (s.cursor == 0)) [
    | inl z ↦ rw z (left-Right s rest owed (inl (ground arith)) a)
    | inr nz ↦ rw nz (
        both-Right (length s.buff) (update_cursor s).0 (update_cursor s).1 rest owed
          (update_settles s) (update-step s rest owed nz a))
  ]

  buffer_empty : (xs : List ℕ) → (length xs == 0) ≡ true → xs ≡ []
  buffer_empty [] e = refl
  buffer_empty (x ∷ xs) e = absurd (ground arith)

  loop-At :
      (fuel : ℕ) (s : State) (rest : List ℕ) (owed : List Mark)
      → length s.buff < fuel
      → At p validate_length s.tmp s.cursor (s.buff ++ rest) owed
      → (s' : State) × (es : List Event) × (owed' : List Mark) × (loop p validate_length fuel s
          ≡ some (s', es))
        × At p validate_length s'.tmp s'.cursor rest owed'
        × (marks es ++ owed' ≡ owed)
  unfolding loop
  loop-At zero s rest owed h a = absurd (omega arith)
  loop-At (suc fuel) s rest owed h a =
      let right = round-Right s rest owed a in
      let s1 : State = (round p validate_length s).0 in
      elim (Bool-cases (length s1.buff == 0)) [
        | inl done ↦
            let empty : s1.buff ≡ [] = buffer_empty s1.buff done in
            (
              s1,
              (round p validate_length s).1,
              right.owed',
              rw (done, loop) refl,
              subst (λ (t : List ℕ). At p validate_length s1.tmp s1.cursor (t ++ rest) right.owed')
                  empty right.stands,
              right.paid,
            )
        | inr more ↦
            let (s2, es, owed2, e, stands, paid) =
              loop-At fuel s1 rest right.owed'
                (omega (arith, right.shorter, (nonempty_lem (length s1.buff) more))) right.stands in
            (
              s2,
              (round p validate_length s).1 ++ es,
              owed2,
              rw (more, loop, e) refl,
              stands,
              ap (λ t. t ++ owed2) (marks-append (round p validate_length s).1 es)
                  ∙ append_assoc (marks (round p validate_length s).1) (marks es) owed2
                  ∙ ap (λ t. marks (round p validate_length s).1 ++ t) paid
                  ∙ right.paid,
            )
      ]

  -- One call: the state stands in the frames behind the bytes.
  on_data-At :
      (tmp : List ℕ) (cursor : ℕ) (bytes rest : List ℕ) (owed : List Mark)
      → At p validate_length tmp cursor (bytes ++ rest) owed
      → (tmp' : List ℕ) × (cursor' : ℕ) × (es : List Event) × (owed' : List Mark) × (on_data p
            validate_length tmp cursor bytes
          ≡ some (tmp', cursor', es))
        × At p validate_length tmp' cursor' rest owed'
        × (marks es ++ owed' ≡ owed)
  unfolding on_data
  on_data-At tmp cursor bytes rest owed a =
      let s : State = record { tmp = tmp; cursor = cursor; buff = bytes } in
      let (s1, es, owed1, e, stands, paid) =
        loop-At (length bytes + 1) s rest owed (omega arith) a in
      (
        s1.tmp,
        s1.cursor,
        es ++ need_read ∷ [],
        owed1,
        rw e refl,
        stands,
        ap (λ t. t ++ owed1) (marks-append es (need_read ∷ []) ∙ need_read-marks es) ∙ paid,
      )

  on_data_all-At :
      (chunks : List (List ℕ)) (tmp : List ℕ) (cursor : ℕ) (rest : List ℕ) (owed : List Mark)
      → At p validate_length tmp cursor (flatten chunks ++ rest) owed
      → (tmp' : List ℕ) × (cursor' : ℕ) × (es : List Event) × (owed' : List Mark) × (on_data_all p
            validate_length tmp cursor chunks
          ≡ some (tmp', cursor', es))
        × At p validate_length tmp' cursor' rest owed'
        × (marks es ++ owed' ≡ owed)
  unfolding on_data_all
  on_data_all-At [] tmp cursor rest owed a = (tmp, cursor, [], owed, refl, a, unfold marks in refl)
  on_data_all-At (bytes ∷ chunks) tmp cursor rest owed a =
      let a' = rw (append_assoc bytes (flatten chunks) rest) at a in
      let (tmp1, cursor1, es, owed1, e, stands, paid) =
        on_data-At tmp cursor bytes (flatten chunks ++ rest) owed a' in
      let (tmp2, cursor2, more, owed2, e2, stands2, paid2) =
        on_data_all-At chunks tmp1 cursor1 rest owed1 stands in
      (
        tmp2,
        cursor2,
        es ++ more,
        owed2,
        rw (e, on_data_all, e2) refl,
        stands2,
        ap (λ t. t ++ owed2) (marks-append es more)
            ∙ append_assoc (marks es) (marks more) owed2
            ∙ ap (λ t. marks es ++ t) paid2
            ∙ paid,
      )

  -- At the end of the frames nothing is owed, and the delegate is as new.
  At-end :
      (tmp : List ℕ) (cursor : ℕ) (owed : List Mark)
      → At p validate_length tmp cursor [] owed
      → (tmp ≡ []) × (cursor ≡ 0) × (owed ≡ [])
  At-end tmp cursor owed (at_prefix [] cursor_is fit left_is open_ owed_is) =
      (sym (append-nil tmp) ∙ left_is ∙ frames_nil, cursor_is, owed_is ∙ expected_nil)
  At-end tmp cursor owed (at_prefix (m ∷ ms) cursor_is fit left_is open_ owed_is) =
      let bytes : tmp ≡ p.pack (length m) ++ (m ++ frames p ms) =
        sym (append-nil tmp) ∙ left_is ∙ frames_cons p validate_length law codec m ms in
      let size =
        ap p.size_length bytes ∙ codec.size_length_pack (length m) (m ++ frames p ms) fit.0.0 in
      absurd (omega (arith, size, (codec.length_pack (length m) fit.0.0).0))
  At-end tmp cursor owed (in_body r ms tmp_empty cursor_is pos fit left_is owed_is) =
      absurd (omega (arith, ap length left_is, length-append r (frames p ms)))

  -- Whatever pieces the frames of some messages arrive in, the calls begin each message with its
  -- length, hand out its bytes in order and end it, but for an empty message, which begins and does
  -- not end; then the delegate is as it was before.
  pub on_data_all-expected :
      (ms chunks : List (List ℕ))
      → All (IsTaken p validate_length) ms
      → flatten chunks ≡ frames p ms
      → (es : List Event) × (on_data_all p validate_length [] 0 chunks ≡ some ([], 0, es))
        × (marks es ≡ expected ms)
  on_data_all-expected ms chunks fit whole =
      let start : At p validate_length [] 0 (flatten chunks ++ []) (expected ms) =
        at_prefix ms refl fit (append-nil (flatten chunks) ∙ whole)
          (empty_incomplete p validate_length law) refl in
      let (tmp, cursor, es, owed, e, stands, paid) =
        on_data_all-At chunks [] 0 [] (expected ms) start in
      let (no_tmp, no_cursor, none_owed) = At-end tmp cursor owed stands in
      (
        es,
        e ∙ ap (λ t. some (t, cursor, es)) no_tmp ∙ ap (λ c. some ([], c, es)) no_cursor,
        sym (append-nil (marks es)) ∙ ap (λ t. marks es ++ t) (sym none_owed) ∙ paid,
      )
