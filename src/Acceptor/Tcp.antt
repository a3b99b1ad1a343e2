-- ===== src/Acceptor/Tcp.antt =====
-- include/srpc/server/acceptor/async/tcp.h. The socket is asio's: an accept that it has waits in
-- `accepting`, and its completion, with the error flag and the remote endpoint, takes the one that
-- waits longest. A handler holds a weak pointer to the acceptor and does nothing once it has gone.
use dep_srpc.Base.{ℕ, suc, Bool, true, false, if◌then◌else◌, List, [], ◌∷◌, ◌++◌}
use dep_srpc.Acceptor.Interface.{
  Delegate, on_accept_client, on_accept_error, on_close, Socket, open_socket, reuse_address,
  bind_socket, listen, async_accept, close_socket, Call, calls_delegate, calls_socket, Interface,
}

-- `ep_` with whether its address is of version 6, and the clients: the next number, and those that
-- an accept waits for.
pub record Tcp {ℓ} (E : Type ℓ) : Type ℓ where
  pub ep : E
  pub is_v6 : Bool
  pub alive : Bool
  pub next_client : ℕ
  pub accepting : List ℕ

module _ {ℓ} {E : Type ℓ} where
  unfoldable pub new_tcp : E → Bool → Tcp E
  new_tcp ep is_v6 = record {
    ep = ep;
    is_v6 = is_v6;
    alive = true;
    next_client = 0;
    accepting = [];
  }

  unfoldable pub open_ : Tcp E → Tcp E × List (Socket E)
  open_ s = (s, open_socket s.is_v6 ∷ [])

  unfoldable pub bind : Tcp E → Tcp E × List (Socket E)
  bind s = (s, reuse_address ∷ bind_socket s.ep ∷ listen 5 ∷ [])

  unfoldable pub close : Tcp E → Tcp E × List (Call E)
  close s = (s, calls_delegate on_close ∷ calls_socket close_socket ∷ [])

  -- With a new client.
  unfoldable pub start_accept : Tcp E → Tcp E × List (Socket E)
  start_accept s = (
    record s { next_client = suc s.next_client; accepting = s.accepting ++ s.next_client ∷ [] },
    async_accept s.next_client ∷ [],
  )

  unfoldable pub handle_accept : Bool → ℕ → E → Tcp E → List (Delegate E)
  handle_accept error client ep s =
      if s.alive
      then if error then on_accept_error ∷ [] else on_accept_client client ep ∷ []
      else []

  -- The completion of an accept.
  unfoldable pub complete : Bool → E → Tcp E → Tcp E × List (Delegate E)
  complete error ep s = elim s.accepting [
    | [] ↦ (s, [])
    | client ∷ others ↦ (record s { accepting = others }, handle_accept error client ep s)
  ]

  unfoldable pub release : Tcp E → Tcp E
  release s = record s { alive = false }

  unfoldable pub tcp : Interface E (Tcp E)
  tcp = record {
    open_ = open_;
    bind = bind;
    start_accept = start_accept;
    close = close;
    release = release;
  }
