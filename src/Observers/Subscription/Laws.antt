-- ===== src/Observers/Subscription/Laws.antt =====
-- A scope that owns a subscription ends it.
use dep_srpc.Base.{
  ℕ, ◌≤◌, ◌<◌, ◌≡◌, refl, arith, Option, none, some, List, [], ◌∷◌, ◌++◌, false, Bool-cases, inl,
  inr,
}
use dep_srpc.Observers.Base.{
  SlotInfo, Impl, Call, connects, unsubscribes, Traits, Op, subscribes, disconnects, calls,
  disconnects_all, connect, unsubscribe, run_calls, clear, splice_added, clear_removed, set_has,
  set_erase, walk, invoke, step, run,
}
use dep_srpc.Observers.Base.Invariant.{Inv, connect-Inv}
use dep_srpc.Observers.Base.History.{run-Inv, unsubscribe_silences}
use dep_srpc.Observers.Subscription.{
  Unsubscriber, run_key, subscribe, disconnect, reset, move_assign, release,
}

module _ {ℓ} {S : Type ℓ} where
  run_calls-id : (cs : List (Call S)) (st : Impl S) → st.id ≤ (run_calls cs st).id
  unfolding run_calls connect unsubscribe
  run_calls-id [] st = omega arith
  run_calls-id (connects s ∷ cs) st = omega (arith, run_calls-id cs (connect s st))
  run_calls-id (unsubscribes k ∷ cs) st = run_calls-id cs (unsubscribe k st)

  walk-id :
      (t : Traits S) (others : ℕ → List (Call S)) (bs : List (SlotInfo S)) (st : Impl S)
      → st.id ≤ (walk t others bs st).state.id
  unfolding walk
  walk-id t others [] st = omega arith
  walk-id t others (b ∷ bs) st = elim (Bool-cases (set_has b.id st.removed)) [
    | inl gone ↦
        let st1 : Impl S = record st { removed = set_erase b.id st.removed } in
        rw (gone, walk)
          (omega (
            arith,
            run_calls-id (others b.id) st1,
            walk-id t others bs (run_calls (others b.id) st1),
          ))
    | inr here ↦
        let st1 : Impl S = run_calls (others b.id ++ t.exec b.slot) st in
        rw (here, walk)
          (omega (arith, run_calls-id (others b.id ++ t.exec b.slot) st, walk-id t others bs st1))
  ]

  step-id : (t : Traits S) (op : Op S) (st : Impl S) → st.id ≤ (step t op st).0.id
  unfolding step connect unsubscribe clear invoke splice_added clear_removed
  step-id t (subscribes s) st = omega arith
  step-id t (disconnects k) st = omega arith
  step-id t (calls others) st = walk-id t others (splice_added st).list (splice_added st)
  step-id t disconnects_all st = omega arith

  run-id : (t : Traits S) (ops : List (Op S)) (st : Impl S) → st.id ≤ (run t ops st).0.id
  unfolding run
  run-id t [] st = omega arith
  run-id t (op ∷ ops) st = omega (arith, step-id t op st, run-id t ops (step t op st).0)

  -- The object after a history, and the ids that ran; no object, no history.
  unfoldable pub run_on : Traits S → List (Op S) → Option (Impl S) → List ℕ
  run_on t ops none = []
  run_on t ops (some st) = (run t ops st).1

  -- From an object whose ids are in order: a slot is subscribed into a scope, and after any history
  -- the scope ends. From then on the slot does not run in any history.
  pub disconnect_silences :
      (t : Traits S) (s : S) (before after : List (Op S)) (st : Impl S)
      → Inv st
      → set_has st.id (
          run_on t after (disconnect (subscribe s st).0 (some (run t before (subscribe s st).1).0)))
        ≡ false
  unfolding run_on subscribe disconnect run_key
  disconnect_silences t s before after st v =
      let st1 : Impl S = connect s st in
      let next : st.id < st1.id = unfold connect in omega arith in
      unsubscribe_silences t st.id after (run t before st1).0
        (run-Inv t before st1 (connect-Inv s st v)) (omega (arith, next, run-id t before st1))

-- An assignment between scopes ends the subscription of the one that is assigned to and leaves the
-- other empty, and a handle that was released is ended by nobody.
pub move_assign-disconnect {ℓ} :
    {S : Type ℓ} (mine other : Option Unsubscriber) (w : Option (Impl S))
    → (move_assign mine other w ≡ (other, none, disconnect mine w))
      × (disconnect (release mine).1 w ≡ w)
unfolding move_assign reset disconnect release
move_assign-disconnect none other w = (refl, refl)
move_assign-disconnect (some u) other w = (refl, refl)
