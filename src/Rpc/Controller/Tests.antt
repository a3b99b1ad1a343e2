-- ===== src/Rpc/Controller/Tests.antt =====
-- A concrete call, and holders of closures.
use dep_srpc.Base.{◌≡◌, refl, none, some, List, [], ◌∷◌, ◌++◌}
use dep_srpc.Rpc.Controller.{
  runs, Op, resets, start_cancels, set_fails, notifies_on_cancel, new_controller, run, move_to,
  move_new, destroy,
}
use dep_srpc.Rpc.Controller.Cancel.{registered, all_run, run_of, up_to_reset, run-canceled}

abbrev first : List Op
first = notifies_on_cancel 4 ∷ start_cancels ∷ []

abbrev before : List Op
before = notifies_on_cancel 1 ∷ resets ∷ notifies_on_cancel 2 ∷ set_fails (7 ∷ []) ∷ []

abbrev after : List Op
after = start_cancels ∷ notifies_on_cancel 3 ∷ []

run-canceled_example :
    (run (up_to_reset (some first) ++ (before ++ start_cancels ∷ after)) new_controller).1
    ≡ (run (up_to_reset (some first)) new_controller).1
      ++ (run_of (registered none before) ++ all_run after)
run-canceled_example = run-canceled (some first) before after tt tt

-- The closure of a moved holder runs once; that of the target of an assignment never does.
moved_once :
    (let (new, old) = move_new (record { cl = some 1 }) in destroy new ++ destroy old) ≡ runs 1 ∷ []
unfolding move_new destroy
moved_once = refl

assigned_lost :
    (let (target, other) = move_to (record { cl = some 1 }) (record { cl = some 2 }) in
      destroy target ++ destroy other)
    ≡ runs 2 ∷ []
unfolding move_to destroy
assigned_lost = refl
