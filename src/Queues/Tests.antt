-- ===== src/Queues/Tests.antt =====
-- The queues of answers at concrete histories.
use dep_srpc.Base.{ℕ, ◌≡◌, refl, arith, none, some, List, [], ◌∷◌, ◌++◌}
use dep_srpc.Queues.Trait.{simple, first, is_empty, rest_of}
use dep_srpc.Queues.Condition.{
  Condition, ok, canceled_result, Op, adds, erases, pushes, reads, find, map_erase, new_slot,
  slot_cancel, slot_push, read_for, not_empty, got_of, cancel_once, erase_slot, add_slot, push_ptr,
  at_slot, step, read_ptr, run,
}
use dep_srpc.Queues.Condition.Fifo.{data_at, values, pushed, run-fifo}
use dep_srpc.Queues.Condition.Keys.{
  Matched, empty_condition, empty-Matched, run-Matched, erase_slot-canceled,
}

-- A slot of key 5 with the handle 0, which holds 10 and 20.
abbrev filling : List (Op ℕ)
filling = adds 5 ∷ pushes 0 10 ∷ pushes 0 20 ∷ []

abbrev one : Condition ℕ
one = (run simple filling empty_condition).0

one-Matched : Matched one
one-Matched = run-Matched simple filling empty_condition empty-Matched

abbrev history : List (Op ℕ)
history =
    reads 0 ∷ pushes 0 30 ∷ adds 6 ∷ pushes 1 40 ∷ reads 0 ∷ erases 5 ∷ pushes 0 50 ∷ reads 0 ∷ []

run-fifo_example :
    values 0 (run simple history one).1 ++ data_at 0 (run simple history one).0.heap
    ≡ data_at 0 one.heap ++ pushed 0 history
run-fifo_example =
    run-fifo 0 history one (unfold run step add_slot find push_ptr at_slot in omega arith)

erase_slot-canceled_example :
    ((erase_slot 5 one).0 ≡ ok)
    × ((find 5 (erase_slot 5 one).1.map ≡ none)
        × ((read_ptr simple 0 (run simple history (erase_slot 5 one).1).0).0
            ≡ some (canceled_result, none)))
unfolding find run step add_slot push_ptr
erase_slot-canceled_example = erase_slot-canceled simple 5 0 history one one-Matched refl

-- The history reads 10 and 20; what is pushed into an erased slot is not read.
history_got : (run simple history one).1 ≡ (0, 10) ∷ (0, 20) ∷ []
unfolding run step add_slot erase_slot find map_erase at_slot push_ptr slot_push read_ptr read_for
    not_empty got_of cancel_once slot_cancel new_slot first is_empty rest_of
history_got = refl
