-- ===== src/Connector/Tests.antt =====
-- Concrete connects; an endpoint is a number.
use dep_srpc.Base.{ℕ, ◌≡◌, refl, true, false, List, [], ◌∷◌}
use dep_srpc.Connector.{
  on_connect, client_open, async_connect, Op, connects, closes, sets_endpoint, completes,
  new_connector, connect, handle_connect, take_connect, complete, step, run,
}
use dep_srpc.Connector.Reports.{expected, run-expected}

abbrev history : List (Op ℕ)
history =
    connects ∷ completes 0 true ∷ sets_endpoint 81 ∷ connects ∷ completes 0 false ∷ closes ∷ []

run-expected_example : (run history (new_connector 80)).1 ≡ expected 0 80 history
run-expected_example = run-expected 80 history tt

abbrev two : List (Op ℕ)
two = connects ∷ connects ∷ completes 0 false ∷ []

-- Two connects at once: the end of the first reports the transport of the second, which is not
-- connected yet.
second_reported :
    (run two (new_connector 80)).1
    ≡ client_open 1 80
      ∷ async_connect 1 80
      ∷ client_open 2 80
      ∷ async_connect 2 80
      ∷ on_connect 2
      ∷ []
unfolding run step connect complete take_connect handle_connect new_connector
second_reported = refl
