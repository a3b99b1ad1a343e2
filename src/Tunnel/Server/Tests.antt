-- ===== src/Tunnel/Server/Tests.antt =====
-- A server with two clients, of which one leaves.
use dep_srpc.Base.{◌≡◌, List, [], ◌∷◌}
use dep_srpc.Tunnel.Server.{
  Op, accepts, removes, device_reads, client_message, new_server, has, run,
}
use dep_srpc.Tunnel.Server.Broadcast.{writes_to, packets_for, run-writes_to}

abbrev two_clients : List Op
two_clients =
    accepts 1
    ∷ device_reads (5 ∷ [])
    ∷ accepts 2
    ∷ device_reads (6 ∷ [])
    ∷ client_message 2 (0 ∷ 9 ∷ [])
    ∷ removes 1
    ∷ device_reads (7 ∷ [])
    ∷ []

run-writes_to_example :
    writes_to 1 (run two_clients new_server).1
    ≡ packets_for 1 two_clients (has 1 new_server.all_clients)
run-writes_to_example = run-writes_to 1 two_clients new_server (unfold new_server in tt)
