-- ===== src/Timers/Periodical.antt =====
-- include/srpc/common/timers/periodical.h, and `call` of once.h. The asio timer is outside: the
-- waits that it has are in `waits`, each with the number of the user's handler that is bound to it;
-- a wait that completes is an operation with the error flag, and so is what `expires_from_now`
-- reports. The user's handler may cancel the timer, which `cancels` says. `handler` lets the lock
-- go after it has found the timer enabled: what is left of it is an operation of its own, and other
-- threads may come in between.
pub mod Stopping
pub mod Tests
pub mod Ticking
use dep_srpc.Base.{
  ℕ, zero, suc, ◌+◌, Bool, true, false, not, ◌&&◌, if◌then◌else◌, Option, none, some,
}
use dep_srpc.Base.{List, [], ◌∷◌, ◌++◌}

pub record Periodical : Type 0 where
  pub duration : ℕ
  pub enabled : Bool
  pub waits : List ℕ
  pub checked : List ℕ

-- Calls of the asio timer, and of a user's handler with the error flag.
pub data Event : Type 0 where
  expires_from_now : ℕ → Event
  async_wait : ℕ → Event
  timer_cancel : Event
  user_call : ℕ → Bool → Event

-- `completes` has the place of the wait among the outstanding ones and its error, `rearms` the
-- place among the handlers that found the timer enabled, and the error that `expires_from_now`
-- reports.
pub data Op : Type 0 where
  set_periods : ℕ → Op
  cancels_it : Op
  calls : ℕ → ℕ → Bool → Op
  completes : ℕ → Bool → Op
  rearms : ℕ → Bool → Op

unfoldable pub new_periodical : Periodical
new_periodical = record { duration = 0; enabled = false; waits = []; checked = [] }

unfoldable pub set_period : ℕ → Periodical → Periodical
set_period dur t = record t { duration = dur }

unfoldable pub cancel : Periodical → Periodical × List Event
cancel t = if t.enabled then (record t { enabled = false }, timer_cancel ∷ []) else (t, [])

unfoldable pub wait_for : ℕ → Periodical → Periodical
wait_for hdl t = record t { waits = t.waits ++ hdl ∷ [] }

unfoldable pub call_impl : ℕ → Bool → Periodical → Periodical × List Event
call_impl hdl err t =
    if not err
    then (wait_for hdl t, expires_from_now t.duration ∷ async_wait hdl ∷ [])
    else (t, expires_from_now t.duration ∷ user_call hdl true ∷ [])

-- `call` with an error argument; the other `call` throws where this one reports an error.
unfoldable pub call : ℕ → ℕ → Bool → Periodical → Periodical × List Event
call hdl dur err t =
    if not err
    then (
      wait_for hdl (record t { duration = dur; enabled = true }),
      expires_from_now dur ∷ async_wait hdl ∷ [],
    )
    else (record t { duration = dur }, expires_from_now dur ∷ [])

-- `once::call`: the wait starts whatever `expires_from_now` reports.
unfoldable pub once_call : ℕ → ℕ → Bool → List Event
once_call hdl dur err = expires_from_now dur ∷ async_wait hdl ∷ []

-- The outstanding wait at a place, and the others.
unfoldable pub take_wait : ℕ → List ℕ → Option (ℕ × List ℕ)
take_wait k [] = none
take_wait zero (h ∷ hs) = some (h, hs)
take_wait (suc k) (h ∷ hs) = elim (take_wait k hs) [
  | none ↦ none
  | some (g, left) ↦ some (g, h ∷ left)
]

module _ (cancels : ℕ → Bool → Bool) where
  -- `userhdl( err )`, in which the user may cancel.
  unfoldable pub userhdl : ℕ → Bool → Periodical → Periodical × List Event
  userhdl hdl err t =
      let (t1, es) = if cancels hdl err then cancel t else (t, []) in (t1, user_call hdl err ∷ es)

  -- `handler` up to its test: where the timer is enabled, `call_impl` is what is left of it.
  unfoldable pub handler : ℕ → Bool → Periodical → Periodical × List Event
  handler hdl err t =
      let (t1, es) = userhdl hdl err t in
      (if not err && t1.enabled then record t1 { checked = t1.checked ++ hdl ∷ [] } else t1, es)

  unfoldable pub complete : ℕ → Bool → Periodical → Periodical × List Event
  complete k err t = elim (take_wait k t.waits) [
    | none ↦ (t, [])
    | some (hdl, left) ↦ handler hdl err (record t { waits = left })
  ]

  -- The rest of `handler`.
  unfoldable pub rearm : ℕ → Bool → Periodical → Periodical × List Event
  rearm k again t = elim (take_wait k t.checked) [
    | none ↦ (t, [])
    | some (hdl, left) ↦ call_impl hdl again (record t { checked = left })
  ]

  unfoldable pub step : Op → Periodical → Periodical × List Event
  step (set_periods dur) t = (set_period dur t, [])
  step cancels_it t = cancel t
  step (calls hdl dur err) t = call hdl dur err t
  step (completes k err) t = complete k err t
  step (rearms k again) t = rearm k again t

  unfoldable pub run : List Op → Periodical → Periodical × List Event
  run [] t = (t, [])
  run (op ∷ ops) t = let (t1, es) = step op t in let (t2, more) = run ops t1 in (t2, es ++ more)
