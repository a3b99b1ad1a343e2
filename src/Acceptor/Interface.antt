-- ===== src/Acceptor/Interface.antt =====
-- include/srpc/server/acceptor/interface.h: the delegate of an acceptor, and what a listener calls
-- of an acceptor, whose state is of any type. A client is its number.
use dep_srpc.Base.{ℕ, Bool, List}

-- The virtual functions of `interface::delegate`. An error is one call, whichever it is.
pub data Delegate {ℓ} (E : Type ℓ) : Type ℓ where
  on_accept_client : ℕ → E → Delegate E
  on_accept_error on_close : Delegate E

-- What an acceptor calls of its socket.
pub data Socket {ℓ} (E : Type ℓ) : Type ℓ where
  open_socket : Bool → Socket E
  reuse_address : Socket E
  bind_socket : E → Socket E
  listen : ℕ → Socket E
  async_accept : ℕ → Socket E
  close_socket : Socket E

pub data Call {ℓ} (E : Type ℓ) : Type ℓ where
  calls_delegate : Delegate E → Call E
  calls_socket : Socket E → Call E

-- `open` (`open_` here), `bind`, `start_accept` and `close`; `release` is the end of the owner's
-- shared pointer.
pub record Interface {ℓ} (E S : Type ℓ) : Type ℓ where
  pub open_ : S → S × List (Socket E)
  pub bind : S → S × List (Socket E)
  pub start_accept : S → S × List (Socket E)
  pub close : S → S × List (Call E)
  pub release : S → S
