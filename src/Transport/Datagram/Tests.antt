-- ===== src/Transport/Datagram/Tests.antt =====
-- A concrete history of the datagram queue.
use dep_srpc.Base.{ℕ, ◌≡◌, true, false, some, none, List, [], ◌∷◌}
use dep_srpc.Transport.Datagram.{
  QueueValue, Op, write_to_queue, sent, reads, closes, received, run, new_datagram,
}
use dep_srpc.Transport.Datagram.Log.{writing, posted, completions, in_order}
use dep_srpc.Transport.Datagram.Order.{run-in_order}

-- An endpoint is its port.
abbrev port : ℕ → ℕ
port n = n

abbrev hello : QueueValue ℕ
hello = record { message = 7 ∷ 8 ∷ []; to = 5000; cback = some 1 }

abbrev bye : QueueValue ℕ
bye = record { message = 9 ∷ []; to = 0; cback = none }

-- Two datagrams, the first sent with an error, with a receive and a close between.
abbrev history : List (Op ℕ)
history =
    write_to_queue hello
    ∷ reads
    ∷ write_to_queue bye
    ∷ sent true 0
    ∷ received false 5000 (1 ∷ [])
    ∷ closes
    ∷ sent false 1
    ∷ []

run-in_order_example :
    writing (run port history (new_datagram 0)).1
    ≡ in_order port (posted history) (completions history)
run-in_order_example = run-in_order port 0 history tt
