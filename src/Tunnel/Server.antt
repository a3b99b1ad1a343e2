-- ===== src/Tunnel/Server.antt =====
-- tst/server.cpp: the server's side of the tunnel. `all_clients` is the list of its keys, the
-- clients' delegates, here numbers; a new delegate has a key that is not in the map. The
-- transports, the acceptor and the device are outside, and what is called of them is an event.
pub mod Broadcast
pub mod Tests
use dep_srpc.Base.{ℕ, Bool, true, false, ◌==◌, if◌then◌else◌, List, [], ◌∷◌, ◌++◌}
use dep_srpc.Tunnel.Packets.{
  Written, to_device, ignored, outside, on_read, on_message, my_size_policy,
}

pub record Server : Type 0 where
  pub all_clients : List ℕ

-- `crashes` is the read outside an empty message.
pub data Event : Type 0 where
  transport_read : ℕ → Event
  start_accept crashes : Event
  transport_write : ℕ → List ℕ → Event
  device_write : List ℕ → Event

pub data Op : Type 0 where
  accepts removes : ℕ → Op
  device_reads : List ℕ → Op
  client_message : ℕ → List ℕ → Op
  closes : Op

unfoldable pub new_server : Server
new_server = record { all_clients = [] }

unfoldable pub has : ℕ → List ℕ → Bool
has k [] = false
has k (m ∷ ms) = let rest = has k ms in if m == k then true else rest

-- The map's `operator []` and `erase`.
unfoldable pub insert : ℕ → List ℕ → List ℕ
insert k ms = if has k ms then ms else k ∷ ms

unfoldable pub erase : ℕ → List ℕ → List ℕ
erase k [] = []
erase k (m ∷ ms) = let rest = erase k ms in if m == k then rest else m ∷ rest

unfoldable pub on_accept_client : ℕ → Server → Server × List Event
on_accept_client k s =
    (record s { all_clients = insert k s.all_clients }, transport_read k ∷ start_accept ∷ [])

unfoldable pub remove_client : ℕ → Server → Server
remove_client k s = record s { all_clients = erase k s.all_clients }

unfoldable pub write_to_all : List ℕ → List ℕ → List Event
write_to_all str [] = []
write_to_all str (k ∷ ks) = transport_write k str ∷ write_to_all str ks

unfoldable pub write_to_clients : List ℕ → Server → List Event
write_to_clients bytes s = write_to_all (on_read my_size_policy bytes) s.all_clients

unfoldable pub write_to_device : Written → List Event
write_to_device (to_device bytes) = device_write bytes ∷ []
write_to_device ignored = []
write_to_device outside = crashes ∷ []

unfoldable pub on_close : Server → Server
on_close s = record s { all_clients = [] }

unfoldable pub step : Op → Server → Server × List Event
step (accepts k) s = on_accept_client k s
step (removes k) s = (remove_client k s, [])
step (device_reads bytes) s = (s, write_to_clients bytes s)
step (client_message k m) s = (s, write_to_device (on_message m))
step closes s = (on_close s, [])

unfoldable pub run : List Op → Server → Server × List Event
run [] s = (s, [])
run (op ∷ ops) s = let (s1, es) = step op s in let (s2, more) = run ops s1 in (s2, es ++ more)
