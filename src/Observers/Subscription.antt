-- ===== src/Observers/Subscription.antt =====
-- include/srpc/common/observers/subscription.h and scoped-subscription.h, with `subscribe` and the
-- `unsubscriber` of base.h. A handle is `unsubscriber_`, the shared pointer, empty for `none`; the
-- object observed is `none` once it is destroyed, which is when the weak `parent` locks to nothing.
pub mod Laws
use dep_srpc.Base.{ℕ, Option, none, some}
use dep_srpc.Observers.Base.{Impl, connect, unsubscribe}

-- `base::unsubscriber`, by its key: the parent is the one object of the model.
pub record Unsubscriber : Type 0 where
  pub key : ℕ

module _ {ℓ} {S : Type ℓ} where
  -- `base::unsubscriber::run`.
  unfoldable pub run_key : Unsubscriber → Option (Impl S) → Option (Impl S)
  run_key u none = none
  run_key u (some st) = some (unsubscribe u.key st)

  unfoldable pub subscribe : S → Impl S → Option Unsubscriber × Impl S
  subscribe call st = (some (record { key = st.id }), connect call st)

  -- `subscription::unsubscribe`, `scoped_subscription::unsubscribe` and its destructor.
  unfoldable pub disconnect : Option Unsubscriber → Option (Impl S) → Option (Impl S)
  disconnect none w = w
  disconnect (some u) w = run_key u w

  -- `scoped_subscription::reset`: the handle is empty before it runs.
  unfoldable pub reset :
      Option Unsubscriber → Option (Impl S) → Option Unsubscriber × Option (Impl S)
  reset none w = (none, w)
  reset (some u) w = (none, run_key u w)

  -- `operator = ( scoped_subscription && )` for two objects: this one's handle, the other's, and
  -- the object observed.
  unfoldable pub move_assign :
      Option Unsubscriber
      → Option Unsubscriber
      → Option (Impl S)
      → Option Unsubscriber × Option Unsubscriber × Option (Impl S)
  move_assign mine other w = let (left, w') = reset mine w in (other, left, w')

  -- `scoped_subscription( scoped_subscription && )`.
  unfoldable pub move_construct :
      Option Unsubscriber
      → Option (Impl S)
      → Option Unsubscriber × Option Unsubscriber × Option (Impl S)
  move_construct other w = let (left, w') = reset none w in (other, left, w')

  -- `operator = ( const subscription & )`.
  unfoldable pub assign :
      Option Unsubscriber
      → Option Unsubscriber
      → Option (Impl S)
      → Option Unsubscriber × Option (Impl S)
  assign mine other w = (other, disconnect mine w)

-- `operator = ( subscription && )` of a scope, which leaves its old handle, run already, to the
-- subscription, and the constructor of it, which leaves none.
module _ {ℓ} {S : Type ℓ} where
  unfoldable pub assign_moved :
      Option Unsubscriber
      → Option Unsubscriber
      → Option (Impl S)
      → Option Unsubscriber × Option Unsubscriber × Option (Impl S)
  assign_moved mine other w = (other, mine, disconnect mine w)

unfoldable pub construct_moved : Option Unsubscriber → Option Unsubscriber × Option Unsubscriber
construct_moved other = (other, none)

-- `swap` of two subscriptions, or of two scopes.
unfoldable pub swap :
    Option Unsubscriber → Option Unsubscriber → Option Unsubscriber × Option Unsubscriber
swap mine other = (other, mine)

-- `release`: the handle that it gives away, and the one left.
unfoldable pub release : Option Unsubscriber → Option Unsubscriber × Option Unsubscriber
release mine = (mine, none)
