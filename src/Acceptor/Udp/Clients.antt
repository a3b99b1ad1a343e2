-- ===== src/Acceptor/Udp/Clients.antt =====
-- client_type of include/srpc/server/acceptor/async/udp.h: the datagrams of one endpoint that wait
-- for `read`, and the cache of their buffers. A handler's results are the client and the data for
-- `on_data`. The number stands for the object's address.
pub mod Order
use dep_srpc.Base.{ℕ, Bool, true, false, ltb, if◌then◌else◌, List, [], ◌∷◌, ◌++◌, length}
use dep_srpc.Cache
use dep_srpc.Cache.{Simple}

pub record Client : Type 0 where
  pub number : ℕ
  pub read : Bool
  pub read_queue : List (List ℕ)
  pub max_cache : ℕ
  pub cache : Simple (List ℕ)

-- `create` as `accept_delegate::on_data` uses it: with the first datagram in the queue.
unfoldable pub new_client : ℕ → ℕ → List ℕ → Client
new_client number max_cache bytes = record {
  number = number;
  read = false;
  read_queue = bytes ∷ [];
  max_cache = max_cache;
  cache = Cache.new_simple max_cache;
}

-- The buffer that leaves the cache; its bytes are overwritten.
unfoldable pub get_buffer : Client → Client
get_buffer c = let (buffer, reused, left) = Cache.get [] c.cache in record c { cache = left }

unfoldable pub set_read_impl : Client → Client × List (List ℕ)
set_read_impl c = if c.read then (c, []) else elim c.read_queue [
  | [] ↦ (record c { read = true }, [])
  | data_ ∷ rest ↦
      (record c { read = false; read_queue = rest; cache = Cache.push data_ c.cache }, data_ ∷ [])
]

unfoldable pub push_data_impl : List ℕ → Client → Client × List (List ℕ)
push_data_impl data_ c =
    if c.read
    then (record c { cache = Cache.push data_ c.cache }, data_ ∷ [])
    else if ltb (length c.read_queue) c.max_cache
    then (record c { read_queue = c.read_queue ++ data_ ∷ [] }, [])
    else (record c { cache = Cache.push data_ c.cache }, [])

-- The two handlers of a client, as they are run one after the other.
pub data Op : Type 0 where
  reads : Op
  pushes : List ℕ → Op

unfoldable pub step : Op → Client → Client × List (List ℕ)
step reads c = set_read_impl c
step (pushes data_) c = push_data_impl data_ c

unfoldable pub run : List Op → Client → Client × List (List ℕ)
run [] c = (c, [])
run (op ∷ ops) c = let (c1, ds) = step op c in let (c2, more) = run ops c1 in (c2, ds ++ more)
