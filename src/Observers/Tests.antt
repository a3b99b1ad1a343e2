-- ===== src/Observers/Tests.antt =====
-- The observer object at concrete histories.
use dep_srpc.Base.{ℕ, ◌≡◌, refl, List, [], ◌∷◌, false, ◌==◌, if◌then◌else◌, some}
use dep_srpc.Observers.Base.{
  SlotInfo, Impl, Traits, Call, connects, unsubscribes, step, splice_added, walk, run_calls,
  set_insert, set_erase, last_id, erase_forward, erase_backward, clear_removed, calls, connect,
  unsubscribe, new_impl, clear_merge, remove_by_index, set_has, invoke, run, simple,
}
use dep_srpc.Observers.Base.Invariant.{Inv, new_impl-Inv, connect-Inv, invoke-Inv}
use dep_srpc.Observers.Base.Passive.{live, ids, unexpired, invoke-live}
use dep_srpc.Observers.Subscription.{subscribe, disconnect}
use dep_srpc.Observers.Subscription.Laws.{run_on, disconnect_silences}

-- Slots are numbers: slot 7 disconnects the id 2 and connects slot 8, and slot 9 expires.
abbrev exec_of : ℕ → List (Call ℕ)
exec_of n = if n == 7 then unsubscribes 2 ∷ connects 8 ∷ [] else []

-- No other thread uses the object.
abbrev alone : ℕ → List (Call ℕ)
alone k = []

-- Another thread disconnects the id 1 when the loop has found that it is not removed.
abbrev too_late : ℕ → List (Call ℕ)
too_late k = if k == 1 then unsubscribes 1 ∷ [] else []

abbrev traits : Traits ℕ
traits = record { exec = exec_of; expired = λ s. s == 9 }

abbrev passive : Traits ℕ
passive = record { exec = λ s. []; expired = λ s. s == 9 }

-- Slot 7 with id 1, slot 5 with id 2 and slot 9 with id 3.
abbrev three : Impl ℕ
three = connect 9 (connect 5 (connect 7 new_impl))

three-Inv : Inv three
three-Inv =
    connect-Inv 9 (connect 5 (connect 7 new_impl))
      (connect-Inv 5 (connect 7 new_impl) (connect-Inv 7 new_impl new_impl-Inv))

-- The first call runs the slots 1 and 3; the second runs 1 and the new slot 4.
two_calls_ran : (run traits (calls alone ∷ calls alone ∷ []) three).1 ≡ 1 ∷ 3 ∷ 1 ∷ 4 ∷ []
unfolding run step invoke splice_added walk run_calls connect unsubscribe set_insert set_has
    set_erase remove_by_index last_id erase_forward erase_backward clear_removed clear_merge
    new_impl
two_calls_ran = refl

-- The slot 1 runs once more.
too_late_ran : (run traits (calls too_late ∷ calls alone ∷ []) three).1 ≡ 1 ∷ 3 ∷ 4 ∷ []
unfolding run step invoke splice_added walk run_calls connect unsubscribe set_insert set_has
    set_erase remove_by_index last_id erase_forward erase_backward clear_removed clear_merge
    new_impl
too_late_ran = refl

-- With the traits of the source the slot 9 stays and runs again.
simple_ran :
    (run (simple exec_of) (calls alone ∷ calls alone ∷ []) three).1 ≡ 1 ∷ 3 ∷ 1 ∷ 3 ∷ 4 ∷ []
unfolding run step invoke splice_added walk run_calls connect unsubscribe set_insert set_has
    set_erase remove_by_index last_id erase_forward erase_backward clear_removed clear_merge
    new_impl simple
simple_ran = refl

invoke-Inv_example : Inv (invoke traits alone three).0
invoke-Inv_example = invoke-Inv traits alone three three-Inv

abbrev slots : List (SlotInfo ℕ)
slots = record { slot = 7; id = 1 } ∷ record { slot = 5; id = 2 } ∷ record { slot = 9; id = 4 } ∷ []

invoke-live_example :
    ((invoke passive alone three).1 ≡ ids (live three))
    × (((invoke passive alone three).0.list ≡ unexpired passive (live three))
        × (((invoke passive alone three).0.added ≡ [])
            × ((invoke passive alone three).0.removed ≡ [])))
invoke-live_example = invoke-live passive alone three (λ s. refl) (λ k. refl) three-Inv

disconnect_silences_example :
    set_has three.id (
      run_on traits (calls alone ∷ calls alone ∷ []) (
        disconnect
          (subscribe 5 three).0
          (some (run traits (calls alone ∷ []) (subscribe 5 three).1).0)))
    ≡ false
disconnect_silences_example =
    disconnect_silences traits 5 (calls alone ∷ []) (calls alone ∷ calls alone ∷ []) three three-Inv
