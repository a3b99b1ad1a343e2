-- ===== src/Delegate/Message/Frames.antt =====
-- The frames that a sender writes, and the round of the loop that takes one.
use dep_srpc.Base.{ℕ, ◌+◌, ◌^◌, ◌<◌, ◌≡◌, sym, arith}
use dep_srpc.Base.{Bool, true}
use dep_srpc.Base.{
  List, [], ◌∷◌, ◌++◌, length, drop, append_assoc, length-append, take-append, drop-append,
}
use dep_srpc.SizePack.Policy.{Policy, IsPrefix, IsCodec}
use dep_srpc.Delegate.Message.{deliver, round}
use dep_srpc.Delegate.Message.Drain.{Delivers-round}

-- What a sender writes: each message behind its packed length.
unfoldable pub frames : Policy → List (List ℕ) → List ℕ
frames p [] = []
frames p (m ∷ ms) = p.pack (length m) ++ (m ++ frames p ms)

module _ (p : Policy) (validate_length : ℕ → Bool) where
  -- A message that the owner takes and the prefix can hold.
  abbrev pub IsTaken : List ℕ → Type 0
  IsTaken m = (length m < p.limit) × (validate_length (length m) ≡ true)

  -- Such a message whose frame's size is a `size_t`.
  abbrev pub IsSendable : List ℕ → Type 0
  IsSendable m =
      (length m < p.limit)
      × (validate_length (length m) ≡ true)
      × (length (p.pack (length m)) + length m < 2 ^ 64)

  module _ (law : IsPrefix p) (codec : IsCodec p) where
    pub round-frame :
        (m rest : List ℕ)
        → IsSendable m
        → round p validate_length (p.pack (length m) ++ (m ++ rest)) ≡ deliver m rest
    round-frame m rest (fits, valid, small) =
        Delivers-round p validate_length bytes m rest law.min_pos (law.size_length_le bytes)
          record {
            complete = rw size (codec.length_pack (length m) fits).0;
            valid = rw number valid;
            enough =
                rw (size, number, length-append prefix (m ++ rest), length-append m rest)
                  (omega arith);
            body = rw (size, number, drop-append prefix (m ++ rest)) (sym (take-append m rest));
            left = rw (size, number) (behind prefix m);
          }
      where
        prefix : List ℕ
        prefix = p.pack (length m)

        bytes : List ℕ
        bytes = prefix ++ (m ++ rest)

        size : p.size_length bytes ≡ length prefix
        size = codec.size_length_pack (length m) (m ++ rest) fits

        number : p.unpack bytes ≡ length m
        number = codec.unpack_pack (length m) (m ++ rest) fits

        behind : (xs ys : List ℕ) → rest ≡ drop (length xs + length ys) (xs ++ (ys ++ rest))
        behind xs ys =
            rw (← length-append xs ys, ← append_assoc xs ys rest)
              (sym (drop-append (xs ++ ys) rest))
