-- ===== src/Session/Pipeline.antt =====
-- The two sides of a connection together: the writing side of one, transport/async/stream.h, and
-- the receiving side of the other, for the protocol without tags.
use dep_srpc.Base.{
  ℕ, ◌+◌, ◌≡◌, refl, ap, sym, ◌∙◌, arith, Bool, some, All, List, [], ◌∷◌, ◌++◌, flatten, append-nil,
}
use dep_srpc.SizePack.Policy.{Policy, IsPrefix, IsCodec}
use dep_srpc.SizePack.Absent.{absent}
use dep_srpc.Hash.Hasher.{Hasher, IsHasher}
use dep_srpc.Protocol.Binary.{Binary}
use dep_srpc.Protocol.Binary.RoundTrip.{
  keep, signed_all, sent_all, IsPayload, on_message-signed_ready, signed_all-IsSendable,
  sent_all-frames,
}
use dep_srpc.Transport.Stream
use dep_srpc.Transport.Stream.{new_stream}
use dep_srpc.Transport.Stream.Bytes.{
  posted_bytes, sent_bytes, Undisturbed, unsent, unsent_of, run-unsent,
}
use dep_srpc.Session.{Session, Event, run}
use dep_srpc.Session.Receiving.{
  handed, receive_all, payload_of, refusal_of, payloads, refusals, run-frames,
}

-- Each payload with the tag of the protocol without tags.
unfoldable pub without_tags : List (List ℕ) → List (ℕ × List ℕ × ℕ)
without_tags [] = []
without_tags (x ∷ xs) = (0, x, 0) ∷ without_tags xs

-- What the socket of a new stream took is what was posted, where nothing is left to be sent.
all_taken :
    (ops : List Stream.Op)
    → Undisturbed ops
    → unsent_of (Stream.run ops new_stream).0 ≡ []
    → sent_bytes (Stream.run ops new_stream).1 ≡ posted_bytes ops
all_taken ops u e =
    let start : unsent_of new_stream ≡ [] = unfold unsent new_stream in refl in
    sym (append-nil (sent_bytes (Stream.run ops new_stream).1))
    ∙ ap (λ t. sent_bytes (Stream.run ops new_stream).1 ++ t) (sym e)
    ∙ run-unsent ops new_stream u (unfold new_stream in refl) (unfold new_stream in tt)
    ∙ ap (λ t. t ++ posted_bytes ops) start

no_more : (r c : ℕ) → r ≡ 0 → r + c ≡ c
no_more r c e = omega (arith, e)

module _ (p : Policy) (hash : Hasher) (law : IsHasher hash) where
  payloads-signed_all :
      (xs : List (List ℕ)) → payloads p absent hash keep (signed_all hash xs) ≡ without_tags xs
  unfolding payloads payload_of signed_all without_tags
  payloads-signed_all [] = refl
  payloads-signed_all (x ∷ xs) =
      rw (on_message-signed_ready hash law x, payloads-signed_all xs) refl

  refusals-signed_all : (xs : List (List ℕ)) → refusals p absent hash keep (signed_all hash xs) ≡ 0
  unfolding refusals refusal_of signed_all
  refusals-signed_all [] = refl
  refusals-signed_all (x ∷ xs) =
      rw (on_message-signed_ready hash law x, refusals-signed_all xs) refl

  -- A new stream is given messages, each a signed payload of a size that can be packed and that the
  -- receiver takes, prefixed in a buffer, in a frame of less than 2 ^ 64 bytes. The socket takes
  -- them in parts of any sizes, without errors, until nothing is left to send. The other side,
  -- which has one read outstanding and nothing left over, receives what the socket took, cut in any
  -- way: it hands on exactly these payloads, in order, posts no close, has no byte left and again
  -- one read outstanding.
  pub run-posted_bytes :
      (prefix : IsPrefix p) (codec : IsCodec p) (b : Binary) (size c room : ℕ) (a : Bool)
      (xs chunks : List (List ℕ)) (ops : List Stream.Op)
      → All (IsPayload p hash b) xs
      → Undisturbed ops
      → posted_bytes ops ≡ sent_all p hash room xs
      → unsent_of (Stream.run ops new_stream).0 ≡ []
      → flatten chunks ≡ sent_bytes (Stream.run ops new_stream).1
      → let s : Session = record {
        binary = b;
        unpacked = [];
        read_buffer = size;
        receiving = 1;
        closes = c;
        active = a;
      } in
        (es : List Event) × (run p absent hash keep (receive_all chunks) s ≡ some (s, es))
        × (handed es ≡ without_tags xs)
  run-posted_bytes prefix codec b size c room a xs chunks ops h u posted done whole =
      let (es, e, calls) =
        run-frames p absent hash keep prefix codec chunks (signed_all hash xs) b size c a
          (signed_all-IsSendable p hash law b xs h)
          (whole ∙ all_taken ops u done ∙ posted ∙ sent_all-frames p hash law b room xs h) in
      let s : ℕ → Session = λ k. record {
        binary = b;
        unpacked = [];
        read_buffer = size;
        receiving = 1;
        closes = k;
        active = a;
      } in
      (
        es,
        e
            ∙ ap (λ k. some (s k, es))
                (no_more (refusals p absent hash keep (signed_all hash xs)) c
                  (refusals-signed_all xs)),
        calls ∙ payloads-signed_all xs,
      )
