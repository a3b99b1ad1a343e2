-- ===== src/Factory/Tests.antt =====
-- A factory whose producers are numbers.
use dep_srpc.Base.{ℕ, ◌+◌, ◌≡◌, arith, ◌==◌, none, List, [], ◌∷◌}
use dep_srpc.Factory.{Op, assigns, erases, new_factory, call_found, create, run}
use dep_srpc.Factory.Laws.{IsSame, latest, create-latest}

number_test : IsSame (λ (a b : ℕ). a == b)
number_test = record { same_self = λ a. ground arith; equal_of_same = λ a b e. ground arith }

abbrev changes : List (Op ℕ ℕ)
changes = assigns 1 10 ∷ assigns 2 20 ∷ assigns 1 30 ∷ erases 2 ∷ []

create-latest_example :
    create (λ (a b : ℕ). a == b) (λ p. p + 1) 0 1 (run (λ (a b : ℕ). a == b) changes new_factory)
    ≡ call_found (λ p. p + 1) 0 (latest (λ (a b : ℕ). a == b) 1 changes none)
create-latest_example = create-latest (λ (a b : ℕ). a == b) number_test (λ p. p + 1) 0 1 changes
