-- ===== src/Cache/Tests.antt =====
-- Caches at concrete histories.
use dep_srpc.Base.{ℕ, ◌≡◌, arith, List, [], ◌∷◌, ◌++◌}
use dep_srpc.Cache.{Simple, Op, gets, pushes, clears, size, run}
use dep_srpc.Cache.Laws.{Bounded, run-Bounded_fifo}

-- A cache of at most two values that holds 1.
abbrev two : Simple ℕ
two = record { maximum = 2; cache = 1 ∷ [] }

abbrev history : List (Op ℕ)
history = pushes 2 ∷ pushes 3 ∷ gets 9 ∷ clears ∷ gets 8 ∷ pushes 4 ∷ []

run-Bounded_fifo_example :
    ((run history two).0 ++ (run history two).2.cache ≡ two.cache ++ (run history two).1)
    × Bounded (run history two).2
    × ((run history two).2.maximum ≡ two.maximum)
run-Bounded_fifo_example = run-Bounded_fifo history two (unfold size in omega arith)
