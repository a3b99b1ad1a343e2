-- ===== src/Session/Tests.antt =====
-- The theorems of a connection at concrete bytes.
use dep_srpc.Base.{
  ℕ, ◌+◌, ◌≡◌, refl, ap, ◌∙◌, arith, true, false, none, some, List, [], ◌∷◌, ◌++◌, take, drop,
  append-nil, take-append-drop,
}
use dep_srpc.SizePack.Fixint
use dep_srpc.SizePack.Fixint.{fixint}
use dep_srpc.SizePack.Fixint.Laws.{fixint-IsCodec, fixint-IsPrefix}
use dep_srpc.SizePack.Absent.{absent}
use dep_srpc.Hash.Crc32.{crc32, get_value, get, update_all, update, crc_value}
use dep_srpc.Hash.Crc32.Table.{crc_table}
use dep_srpc.Hash.Crc32.Laws.{crc32-IsHasher}
use dep_srpc.Delegate.Message.Frames.{frames}
use dep_srpc.Protocol.Binary.{
  Binary, validate_length, insert_size_prefix, insert_prefix, write_at, slice_bytes,
}
use dep_srpc.Protocol.Binary.RoundTrip.{keep, sent, signed, sent_all}
use dep_srpc.Transport.Stream
use dep_srpc.Transport.Stream.{
  Op, writes, completes, new_stream, step, complete, write_handler, write_impl, async_write,
  async_write_at, next_message, postcall,
}
use dep_srpc.Transport.Stream.Bytes.{sent_bytes, posted_bytes, unsent}
use dep_srpc.Session as Connection
use dep_srpc.Session.{Session, Event, received, runs_close, assigns, reads, run}
use dep_srpc.Session.Closing.{closings, to_close, received_by, received_bytes, run-closings}
use dep_srpc.Session.Receiving.{handed, receive_all, payloads, refusals, run-frames}
use dep_srpc.Session.Pipeline.{without_tags, run-posted_bytes}

abbrev receiver : Binary
receiver = record { max_length = 100 }

-- A message that is too short for a checksum, and one with its checksum.
abbrev two_messages : List (List ℕ)
two_messages = (1 ∷ 2 ∷ []) ∷ signed crc32 (3 ∷ []) ∷ []

abbrev two_frames : List ℕ
two_frames = frames (fixint 4) two_messages

abbrev reading : ℕ → Session
reading closes = record {
  binary = receiver;
  unpacked = [];
  read_buffer = 100;
  receiving = 1;
  closes = closes;
  active = true;
}

run-frames_example :
    (es : List Event) × (run
        (fixint 4)
        absent
        crc32
        keep
        (receive_all (take 5 two_frames ∷ drop 5 two_frames ∷ []))
        (reading 0)
      ≡ some (reading (refusals (fixint 4) absent crc32 keep two_messages + 0), es))
    × (handed es ≡ payloads (fixint 4) absent crc32 keep two_messages)
unfolding signed validate_length Fixint.pack Fixint.pack_loop Fixint.packed_length get crc_value
    update_all update get_value crc_table
run-frames_example =
    run-frames (fixint 4) absent crc32 keep (fixint-IsPrefix 4 (omega arith)) (fixint-IsCodec 4)
      (take 5 two_frames ∷ drop 5 two_frames ∷ []) two_messages receiver 100 0 true
      ((omega arith, refl, omega arith), ((omega arith, refl, omega arith), tt))
      (ap (λ t. take 5 two_frames ++ t) (append-nil (drop 5 two_frames))
        ∙ take-append-drop 5 two_frames)

-- The message is taken by the socket in two parts.
abbrev one_frame : List ℕ
one_frame = sent (fixint 4) 2 (signed crc32 (1 ∷ 2 ∷ []))

abbrev in_two_parts : List Op
in_two_parts =
    writes (record { message = one_frame; cback = none })
    ∷ completes false 3
    ∷ completes false 7
    ∷ []

abbrev taken : List ℕ
taken = sent_bytes (Stream.run in_two_parts new_stream).1

run-posted_bytes_example :
    (es : List Event) × (run
        (fixint 4)
        absent
        crc32
        keep
        (receive_all (take 6 taken ∷ drop 6 taken ∷ []))
        (reading 0)
      ≡ some (reading 0, es))
    × (handed es ≡ without_tags ((1 ∷ 2 ∷ []) ∷ []))
unfolding sent signed sent_all posted_bytes unsent Stream.run step complete write_handler write_impl
    async_write async_write_at next_message postcall new_stream insert_size_prefix insert_prefix
    write_at slice_bytes Fixint.pack Fixint.pack_loop Fixint.packed_length get crc_value update_all
    update get_value crc_table
run-posted_bytes_example =
    run-posted_bytes (fixint 4) crc32 crc32-IsHasher (fixint-IsPrefix 4 (omega arith))
      (fixint-IsCodec 4) receiver 100 0 2 true ((1 ∷ 2 ∷ []) ∷ [])
      (take 6 taken ∷ drop 6 taken ∷ []) in_two_parts
      ((omega arith, omega arith, refl, omega arith), tt) tt refl refl
      (ap (λ t. take 6 taken ++ t) (append-nil (drop 6 taken)) ∙ take-append-drop 6 taken)

-- A message of 2 bytes is refused, and so is a length of 200; then the two closes run.
abbrev damaged : List Connection.Op
damaged =
    assigns
    ∷ received false (0 ∷ 0 ∷ 0 ∷ 2 ∷ 9 ∷ 9 ∷ [])
    ∷ received false (0 ∷ 0 ∷ 0 ∷ 200 ∷ [])
    ∷ runs_close
    ∷ runs_close
    ∷ reads
    ∷ []

run-closings_example :
    (r : Session × List Event) × (run (fixint 4) absent crc32 keep damaged (reading 0) ≡ some r)
    × (closings r.1 + to_close r.0.active ≡ to_close (reading 0).active)
unfolding validate_length received_bytes received_by
run-closings_example =
    run-closings (fixint 4) absent crc32 keep (fixint-IsPrefix 4 (omega arith)) damaged (reading 0)
      (λ bs valid. ground (arith, valid)) (omega arith)
