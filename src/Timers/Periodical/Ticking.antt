-- ===== src/Timers/Periodical/Ticking.antt =====
-- A timer that runs.
use dep_srpc.Base.{ℕ, zero, suc, ◌≡◌, refl, Bool, true, false}
use dep_srpc.Base.{List, [], ◌∷◌}
use dep_srpc.Timers.Periodical.{
  Periodical, Event, expires_from_now, async_wait, user_call, Op, calls, completes, rearms,
  wait_for, call, call_impl, take_wait, userhdl, handler, complete, rearm, step, run,
}

-- A number of waits that complete without an error, one after the other, each handler run to its
-- end.
unfoldable pub ticks : ℕ → List Op
ticks zero = []
ticks (suc n) = completes 0 false ∷ rearms 0 false ∷ ticks n

running : ℕ → ℕ → Periodical
running dur hdl = record { duration = dur; enabled = true; waits = hdl ∷ []; checked = [] }

-- What each of them calls.
unfoldable pub tick_events : ℕ → ℕ → ℕ → List Event
tick_events dur hdl zero = []
tick_events dur hdl (suc n) =
    user_call hdl false ∷ expires_from_now dur ∷ async_wait hdl ∷ tick_events dur hdl n

module _ (cancels : ℕ → Bool → Bool) where
  at_the_test : ℕ → ℕ → Periodical
  at_the_test dur hdl = record { duration = dur; enabled = true; waits = []; checked = hdl ∷ [] }

  complete_step :
      (dur hdl : ℕ)
      → cancels hdl false ≡ false
      → step cancels (completes 0 false) (running dur hdl)
        ≡ (at_the_test dur hdl, user_call hdl false ∷ [])
  unfolding step complete take_wait handler userhdl running at_the_test
  complete_step dur hdl keeps = rw keeps refl

  rearm_step :
      (dur hdl : ℕ)
      → step cancels (rearms 0 false) (at_the_test dur hdl)
        ≡ (running dur hdl, expires_from_now dur ∷ async_wait hdl ∷ [])
  unfolding step rearm take_wait call_impl wait_for running at_the_test
  rearm_step dur hdl = refl

  running-ticks :
      (n dur hdl : ℕ)
      → cancels hdl false ≡ false
      → run cancels (ticks n) (running dur hdl) ≡ (running dur hdl, tick_events dur hdl n)
  unfolding run ticks tick_events
  running-ticks zero dur hdl keeps = refl
  running-ticks (suc n) dur hdl keeps =
      rw (complete_step dur hdl keeps, rearm_step dur hdl, running-ticks n dur hdl keeps) refl

  -- After a `call` that succeeds on a timer without waits, with a handler that does not cancel it:
  -- when any number of its waits have completed without an error, the handler has been called once
  -- for each, the timer was set to the same duration after each, and one wait is outstanding.
  pub run-tick_events :
      (n dur hdl old : ℕ) (on : Bool)
      → cancels hdl false ≡ false
      → run cancels
          (calls hdl dur false ∷ ticks n)
          (record { duration = old; enabled = on; waits = []; checked = [] })
        ≡ (
          record { duration = dur; enabled = true; waits = hdl ∷ []; checked = [] },
          expires_from_now dur ∷ async_wait hdl ∷ tick_events dur hdl n,
        )
  unfolding run step call wait_for running
  run-tick_events n dur hdl old on keeps = rw (running-ticks n dur hdl keeps) refl
