-- ===== src/Transport/Stream/Tests.antt =====
-- The write queue at concrete histories.
use dep_srpc.Base.{◌≡◌, refl, true, false, some, List, [], ◌∷◌, ◌++◌}
use dep_srpc.Transport.Stream.{
  QueueValue, sent, post_call, write_error, on_close, new_stream, async_write_at, async_write,
  postcall, next_message, write_handler, write_impl, close_unsafe, Op, writes, completes, closes,
  complete, step, run,
}
use dep_srpc.Transport.Stream.Bytes.{sent_bytes, unsent_of, posted_bytes, run-unsent}
use dep_srpc.Transport.Stream.OneWrite.{OneWrite, run-OneWrite}
use dep_srpc.Transport.Stream.Callbacks.{called, waiting, posted, owed, run-callbacks}

-- Two messages, the first with a callback; the first is written in two parts.
abbrev first : QueueValue
first = record { message = 1 ∷ 2 ∷ 3 ∷ []; cback = some 7 }

abbrev second : QueueValue
second = record { message = 4 ∷ []; cback = some 8 }

abbrev parts : List Op
parts = writes first ∷ completes false 1 ∷ writes second ∷ completes false 2 ∷ []

-- The error takes the first message away, and the closing stops the second.
abbrev broken : List Op
broken = writes first ∷ writes second ∷ closes ∷ completes true 0 ∷ closes ∷ []

parts_ran : (run parts new_stream).1 ≡ sent (1 ∷ []) ∷ sent (2 ∷ 3 ∷ []) ∷ post_call 7 false 2 ∷ []
unfolding run step new_stream write_impl async_write async_write_at complete write_handler
    next_message postcall
parts_ran = refl

broken_ran : (run broken new_stream).1 ≡ on_close ∷ sent [] ∷ post_call 7 true 0 ∷ write_error ∷ []
unfolding run step new_stream write_impl async_write async_write_at complete write_handler
    next_message postcall close_unsafe
broken_ran = refl

new_stream-OneWrite : OneWrite new_stream
unfolding new_stream
new_stream-OneWrite = tt

run-OneWrite_example : OneWrite (run broken new_stream).0
run-OneWrite_example = run-OneWrite broken new_stream new_stream-OneWrite

run-unsent_example :
    sent_bytes (run parts new_stream).1 ++ unsent_of (run parts new_stream).0
    ≡ unsent_of new_stream ++ posted_bytes parts
run-unsent_example = run-unsent parts new_stream tt (unfold new_stream in refl) new_stream-OneWrite

run-callbacks_example :
    called (run broken new_stream).1 ++ owed (run broken new_stream).0
    ≡ waiting new_stream.write_queue ++ posted broken
run-callbacks_example = run-callbacks broken new_stream new_stream-OneWrite
