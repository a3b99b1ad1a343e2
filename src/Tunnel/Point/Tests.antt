-- ===== src/Tunnel/Point/Tests.antt =====
-- A device that turns its messages round.
use dep_srpc.Base.{ℕ, ◌≡◌, false, none, some, List, [], ◌∷◌, ◌++◌}
use dep_srpc.Tunnel.Point.{
  Op, writes, completes, reads, closes, received, new_point, opt_transform_message, run,
}
use dep_srpc.Tunnel.Point.Writing.{posted, sent_bytes, unsent_of, run-posted}

abbrev doubled : List ℕ → List ℕ
doubled m = m ++ m

abbrev two_messages : List Op
two_messages =
    writes (record { message_ = 1 ∷ 2 ∷ []; success_ = some 7 })
    ∷ writes (record { message_ = 3 ∷ []; success_ = none })
    ∷ completes false 1
    ∷ reads
    ∷ completes false 3
    ∷ received false (9 ∷ [])
    ∷ closes
    ∷ []

run-posted_example :
    sent_bytes (run opt_transform_message doubled two_messages new_point).1
      ++ unsent_of opt_transform_message doubled
          (run opt_transform_message doubled two_messages new_point).0
    ≡ unsent_of opt_transform_message doubled new_point
      ++ posted opt_transform_message doubled two_messages
run-posted_example =
    run-posted opt_transform_message doubled two_messages new_point tt (unfold new_point in tt)
