-- ===== src/Connector.antt =====
-- include/srpc/client/connector/async/impl/templ.h, the connector of which the TCP and UDP ones are
-- instances. A transport is a number, a new one at each `create`; it lives as long as the member or
-- a posted handler needs it. asio has the connects of `connecting`, each for a transport; the
-- completion of one is an operation with its place among them and the error flag.
pub mod Reports
pub mod Tests
use dep_srpc.Base.{
  ℕ, zero, suc, ◌+◌, Bool, true, false, not, if◌then◌else◌, Option, none, some, List, [], ◌∷◌, ◌++◌,
}

pub record Connector {ℓ} (E : Type ℓ) : Type ℓ where
  pub client : ℕ
  pub ep : E
  pub connecting : List ℕ
  pub next_client : ℕ

-- Calls of the connector's delegate, the transports' members and asio.
pub data Event {ℓ} (E : Type ℓ) : Type ℓ where
  on_connect : ℕ → Event E
  on_connect_error on_close : Event E
  client_open : ℕ → E → Event E
  client_close : ℕ → Event E
  async_connect : ℕ → E → Event E

pub data Op {ℓ} (E : Type ℓ) : Type ℓ where
  connects closes : Op E
  sets_endpoint : E → Op E
  completes : ℕ → Bool → Op E

-- The outstanding connect at a place, and the others.
unfoldable pub take_connect : ℕ → List ℕ → Option (ℕ × List ℕ)
take_connect k [] = none
take_connect zero (t ∷ ts) = some (t, ts)
take_connect (suc k) (t ∷ ts) = elim (take_connect k ts) [
  | none ↦ none
  | some (u, left) ↦ some (u, t ∷ left)
]

module _ {ℓ} {E : Type ℓ} where
  unfoldable pub new_connector : E → Connector E
  new_connector ep = record { client = 0; ep = ep; connecting = []; next_client = 1 }

  -- A new transport takes the place of the member, and is the one that connects.
  unfoldable pub connect : Connector E → Connector E × List (Event E)
  connect c =
      let tmp = c.next_client in
      (
        record c {
          client = tmp;
          connecting = c.connecting ++ tmp ∷ [];
          next_client = c.next_client + 1;
        },
        client_open tmp c.ep ∷ async_connect tmp c.ep ∷ [],
      )

  -- The member is never NULL.
  unfoldable pub close : Connector E → Connector E × List (Event E)
  close c = (c, on_close ∷ client_close c.client ∷ [])

  unfoldable pub set_endpoint : E → Connector E → Connector E
  set_endpoint ep c = record c { ep = ep }

  -- What is reported is the member, whichever transport the handler was for.
  unfoldable pub handle_connect : Bool → Connector E → List (Event E)
  handle_connect error c = if not error then on_connect c.client ∷ [] else on_connect_error ∷ []

  unfoldable pub complete : ℕ → Bool → Connector E → Connector E × List (Event E)
  complete k error c = elim (take_connect k c.connecting) [
    | none ↦ (c, [])
    | some (t, left) ↦ (record c { connecting = left }, handle_connect error c)
  ]

  unfoldable pub step : Op E → Connector E → Connector E × List (Event E)
  step connects c = connect c
  step closes c = close c
  step (sets_endpoint ep) c = (set_endpoint ep c, [])
  step (completes k error) c = complete k error c

  unfoldable pub run : List (Op E) → Connector E → Connector E × List (Event E)
  run [] c = (c, [])
  run (op ∷ ops) c = let (c1, es) = step op c in let (c2, more) = run ops c1 in (c2, es ++ more)
