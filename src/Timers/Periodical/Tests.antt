-- ===== src/Timers/Periodical/Tests.antt =====
-- Concrete timers; a handler with number 9 cancels.
use dep_srpc.Base.{ℕ, ◌≡◌, ◌==◌, refl, Bool, true, false, List, [], ◌∷◌, length}
use dep_srpc.Timers.Periodical.{
  Periodical, expires_from_now, async_wait, timer_cancel, user_call, Op, set_periods, cancels_it,
  calls, completes, rearms, new_periodical, step, run, cancel, wait_for, call, call_impl, take_wait,
  userhdl, handler, complete, rearm,
}
use dep_srpc.Timers.Periodical.Stopping.{Stopped, run-Stopped}

abbrev nine_cancels : ℕ → Bool → Bool
nine_cancels hdl err = hdl == 9

-- A wait is outstanding, and two handlers have found the timer enabled.
abbrev busy : Periodical
busy = record { duration = 5; enabled = true; waits = 2 ∷ []; checked = 9 ∷ 1 ∷ [] }

abbrev late : List Op
late =
    rearms 1 false
    ∷ completes 0 true
    ∷ set_periods 3
    ∷ rearms 0 true
    ∷ cancels_it
    ∷ completes 0 false
    ∷ []

run-Stopped_example :
    Stopped (length busy.waits) (length busy.checked) (run nine_cancels (cancels_it ∷ late) busy)
run-Stopped_example = run-Stopped nine_cancels late busy tt

-- A handler that found the timer enabled starts a wait after `cancel`.
wait_after_cancel :
    run nine_cancels
      (calls 1 5 false ∷ completes 0 false ∷ cancels_it ∷ rearms 0 false ∷ [])
      new_periodical
    ≡ (
      record { duration = 5; enabled = false; waits = 1 ∷ []; checked = [] },
      expires_from_now 5
          ∷ async_wait 1
          ∷ user_call 1 false
          ∷ timer_cancel
          ∷ expires_from_now 5
          ∷ async_wait 1
          ∷ [],
    )
unfolding run step call cancel wait_for complete rearm take_wait handler userhdl call_impl
    new_periodical
wait_after_cancel = refl

-- A wait that expired before `cancel` and completes after the next `call` sets the timer again for
-- the old handler; asio then aborts the new wait, and the new handler is never called again.
old_handler_stays :
    (run nine_cancels
      (calls 1 5 false
        ∷ cancels_it
        ∷ calls 2 7 false
        ∷ completes 0 false
        ∷ rearms 0 false
        ∷ completes 0 true
        ∷ [])
      new_periodical).0
    ≡ record { duration = 7; enabled = true; waits = 1 ∷ []; checked = [] }
unfolding run step call cancel wait_for complete rearm take_wait handler userhdl call_impl
    new_periodical
old_handler_stays = refl
