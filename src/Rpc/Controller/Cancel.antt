-- ===== src/Rpc/Controller/Cancel.antt =====
-- The closures that a cancellation runs.
use dep_srpc.Base.{
  ℕ, ◌≡◌, refl, ap, sym, ◌∙◌, Bool, true, false, Option, none, some, List, [], ◌∷◌, ◌++◌,
  append_assoc, append-nil,
}
use dep_srpc.Rpc.Controller.{
  Controller, Event, runs, Op, resets, start_cancels, set_fails, notifies_on_cancel, new_controller,
  reset, start_cancel, set_failed, notify_on_cancel, step, run,
}

-- What is waiting to be told: the closure registered last since the start and the last reset.
unfoldable pub registered : Option ℕ → List Op → Option ℕ
registered cl [] = cl
registered cl (resets ∷ ops) = registered none ops
registered cl (start_cancels ∷ ops) = registered cl ops
registered cl (set_fails reason ∷ ops) = registered cl ops
registered cl (notifies_on_cancel callback ∷ ops) = registered (some callback) ops

-- Every closure registered in a history, as a run.
unfoldable pub all_run : List Op → List Event
all_run [] = []
all_run (resets ∷ ops) = all_run ops
all_run (start_cancels ∷ ops) = all_run ops
all_run (set_fails reason ∷ ops) = all_run ops
all_run (notifies_on_cancel callback ∷ ops) = runs callback ∷ all_run ops

unfoldable pub run_of : Option ℕ → List Event
run_of none = []
run_of (some cl) = runs cl ∷ []

abbrev pub NoCancel : List Op → Type 0
NoCancel [] = Unit
NoCancel (start_cancels ∷ ops) = ⊥
NoCancel (_ ∷ ops) = NoCancel ops

abbrev pub NoReset : List Op → Type 0
NoReset [] = Unit
NoReset (resets ∷ ops) = ⊥
NoReset (_ ∷ ops) = NoReset ops

at : Bool → List ℕ → Bool → Option ℕ → Controller
at f e b cl = record { failed = f; error_string = e; canceled = b; cancel_cl = cl }

-- Canceled, with nothing waiting: each closure runs when it is registered.
after_cancel :
    (ops : List Op) (f : Bool) (e : List ℕ)
    → NoReset ops
    → (run ops (at f e true none)).1 ≡ all_run ops
unfolding run step start_cancel set_failed notify_on_cancel at all_run
after_cancel [] f e h = refl
after_cancel (resets ∷ ops) f e h = absurd h
after_cancel (start_cancels ∷ ops) f e h = after_cancel ops f e h
after_cancel (set_fails reason ∷ ops) f e h = after_cancel ops true reason h
after_cancel (notifies_on_cancel callback ∷ ops) f e h =
    ap (λ es. runs callback ∷ es) (after_cancel ops f e h)

cancel_now :
    (cl : Option ℕ) (after : List Op) (f : Bool) (e : List ℕ)
    → NoReset after
    → (run (start_cancels ∷ after) (at f e false cl)).1 ≡ run_of cl ++ all_run after
unfolding run step start_cancel at run_of
cancel_now none after f e h = after_cancel after f e h
cancel_now (some cl) after f e h = ap (λ es. runs cl ∷ es) (after_cancel after f e h)

before_cancel :
    (before after : List Op) (f : Bool) (e : List ℕ) (cl : Option ℕ)
    → NoCancel before
    → NoReset after
    → (run (before ++ start_cancels ∷ after) (at f e false cl)).1
      ≡ run_of (registered cl before) ++ all_run after
unfolding registered run step reset set_failed notify_on_cancel at
before_cancel [] after f e cl h k = cancel_now cl after f e k
before_cancel (resets ∷ ops) after f e cl h k = before_cancel ops after false [] none h k
before_cancel (start_cancels ∷ ops) after f e cl h k = absurd h
before_cancel (set_fails reason ∷ ops) after f e cl h k = before_cancel ops after true reason cl h k
before_cancel (notifies_on_cancel callback ∷ ops) after f e cl h k =
    before_cancel ops after f e (some callback) h k

run-append :
    (xs ys : List Op) (c : Controller)
    → (run (xs ++ ys) c).1 ≡ (run xs c).1 ++ (run ys (run xs c).0).1
unfolding run
run-append [] ys c = refl
run-append (op ∷ xs) ys c =
    ap (λ t. (step op c).1 ++ t) (run-append xs ys (step op c).0)
    ∙ sym (append_assoc (step op c).1 (run xs (step op c).0).1 (run ys (run xs (step op c).0).0).1)

-- After `reset` the controller is as new.
after_reset :
    (before after : List Op) (c : Controller)
    → NoCancel before
    → NoReset after
    → (run (resets ∷ (before ++ start_cancels ∷ after)) c).1
      ≡ run_of (registered none before) ++ all_run after
unfolding run step reset at
after_reset before after c h k = before_cancel before after false [] none h k

-- The operations up to and with the last reset, or none of them.
unfoldable pub up_to_reset : Option (List Op) → List Op
up_to_reset none = []
up_to_reset (some first) = first ++ resets ∷ []

reset_quiet :
    (first : List Op) (c : Controller) → (run (first ++ resets ∷ []) c).1 ≡ (run first c).1
unfolding run step
reset_quiet first c = run-append first (resets ∷ []) c ∙ append-nil (run first c).1

-- A new controller, and any history that is empty or ends in a reset; then operations without a
-- cancellation, a cancellation, and operations without a reset. The closures that run are those
-- that ran in that history, then the one that was registered last since the last reset before the
-- cancellation, once, and then each one registered behind the cancellation, once, at once, with
-- further cancellations or without.
pub run-canceled :
    (first : Option (List Op)) (before after : List Op)
    → NoCancel before
    → NoReset after
    → (run (up_to_reset first ++ (before ++ start_cancels ∷ after)) new_controller).1
      ≡ (run (up_to_reset first) new_controller).1
        ++ (run_of (registered none before) ++ all_run after)
unfolding up_to_reset
run-canceled none before after h k =
    unfold run new_controller at in before_cancel before after false [] none h k
run-canceled (some first) before after h k =
    let rest : List Op = before ++ start_cancels ∷ after in
    let found : List Event = run_of (registered none before) ++ all_run after in
    ap (λ ops. (run ops new_controller).1) (append_assoc first (resets ∷ []) rest)
    ∙ run-append first (resets ∷ rest) new_controller
    ∙ ap (λ t. (run first new_controller).1 ++ t)
        (after_reset before after (run first new_controller).0 h k)
    ∙ ap (λ t. t ++ found) (sym (reset_quiet first new_controller))
