-- ===== src/Listener/Tests.antt =====
-- A listener that accepts two clients and is stopped.
use dep_srpc.Base.{ℕ, ◌≡◌, true, false, List, [], ◌∷◌}
use dep_srpc.Listener.{Op, starts, stops, releases, accepted, create, run}
use dep_srpc.Listener.Accepting.{announced, expected_clients, outstanding, run-announced}

-- The stop cancels the accept, which completes with an error.
abbrev two_clients : List (Op ℕ)
two_clients = accepted false 70 ∷ accepted false 80 ∷ stops ∷ accepted true 0 ∷ releases ∷ []

run-announced_example :
    (announced (run (starts ∷ two_clients) (create 50 false)).1 ≡ expected_clients 0 two_clients)
    × ((run (starts ∷ two_clients) (create 50 false)).0.acceptor.accepting
        ≡ outstanding 0 two_clients)
run-announced_example = run-announced 50 false two_clients tt
