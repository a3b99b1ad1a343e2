-- ===== src/Observers/Base.antt =====
-- include/srpc/common/observers/base.h: `base::impl` and `base::operator ( )`. The operations hold
-- their mutex from end to end, but for the loop of `operator ( )`: while it lasts the slots that it
-- calls, which is `Traits.exec`'s result, and other threads may call `connect` and `unsubscribe` of
-- the same object. What a slot asks for depends on the slot alone. The object's lists are the
-- values of `details::list`, and a `std::set` is its elements in increasing order.
pub mod Search
pub mod Order
pub mod Invariant
pub mod Dead
pub mod History
pub mod Passive
pub mod Macro
use dep_srpc.Base.{ℕ, zero, suc, ◌+◌, ◌-◌, Bool, true, false, ◌||◌, ltb, ◌==◌, if◌then◌else◌}
use dep_srpc.Base.{List, [], ◌∷◌, ◌++◌}

-- `slot_info`.
pub record SlotInfo {ℓ} (S : Type ℓ) : Type ℓ where
  pub slot : S
  pub id : ℕ

-- What a running slot asks of the object that runs it.
pub data Call {ℓ} (S : Type ℓ) : Type ℓ where
  connects : S → Call S
  unsubscribes : ℕ → Call S

-- The slot traits: the calls that the slot makes while it runs, and `expired`. `erase` does nothing
-- in `traits::simple`.
pub record Traits {ℓ} (S : Type ℓ) : Type ℓ where
  pub exec : S → List (Call S)
  pub expired : S → Bool

-- `impl`, without its two mutexes.
pub record Impl {ℓ} (S : Type ℓ) : Type ℓ where
  pub removed : List ℕ
  pub list : List (SlotInfo S)
  pub added : List (SlotInfo S)
  pub id : ℕ

-- What the loop of `operator ( )` leaves: the slots kept, the object, and the ids that ran.
pub record Pass {ℓ} (S : Type ℓ) : Type ℓ where
  pub kept : List (SlotInfo S)
  pub state : Impl S
  pub ran : List ℕ

-- `std::set::insert`, and `std::set::erase` with its count.
unfoldable pub set_insert : ℕ → List ℕ → List ℕ
set_insert k [] = k ∷ []
set_insert k (x ∷ xs) =
    if ltb x k then x ∷ set_insert k xs else if x == k then x ∷ xs else k ∷ x ∷ xs

unfoldable pub set_has : ℕ → List ℕ → Bool
set_has k [] = false
set_has k (x ∷ xs) = x == k || set_has k xs

unfoldable pub set_erase : ℕ → List ℕ → List ℕ
set_erase k [] = []
set_erase k (x ∷ xs) = if x == k then xs else x ∷ set_erase k xs

module _ {ℓ} {S : Type ℓ} where
  -- `traits::simple`, whose slots are functions that are called: no slot is ever expired.
  unfoldable pub simple : (S → List (Call S)) → Traits S
  simple call = record { exec = call; expired = λ slot. false }

  unfoldable pub new_impl : Impl S
  new_impl = record { removed = []; list = []; added = []; id = 1 }

  -- The walk from the front, `for( ; b && (b->id_ < id); ++b )`, and the erasure.
  unfoldable pub erase_forward : ℕ → List (SlotInfo S) → List (SlotInfo S)
  erase_forward id [] = []
  erase_forward id (x ∷ xs) =
      if ltb x.id id then x ∷ erase_forward id xs else if x.id == id then xs else x ∷ xs

  -- The walk from the back, `for( ; b && (id < b->id_); --b )`: the tail is walked first, and the
  -- second part tells whether the walk has stopped there.
  unfoldable pub erase_backward : ℕ → List (SlotInfo S) → List (SlotInfo S) × Bool
  erase_backward id [] = ([], false)
  erase_backward id (x ∷ xs) =
      let (ys, stopped) = erase_backward id xs in
      if stopped
      then (x ∷ ys, true)
      else if ltb id x.id
      then (x ∷ ys, false)
      else if x.id == id
      then (ys, true)
      else (x ∷ ys, true)

  unfoldable pub last_id : SlotInfo S → List (SlotInfo S) → ℕ
  last_id x [] = x.id
  last_id x (y ∷ ys) = last_id y ys

  unfoldable pub remove_by_index : List (SlotInfo S) → ℕ → List (SlotInfo S)
  remove_by_index [] id = []
  remove_by_index (x ∷ xs) id =
      let min_id = x.id in
      let max_id = last_id x xs in
      if ltb id min_id || ltb max_id id
      then x ∷ xs
      else if ltb (id - min_id) (max_id - id)
      then erase_forward id (x ∷ xs)
      else (erase_backward id (x ∷ xs)).0

  -- The new id is the result in the source; it is the old `id` field.
  unfoldable pub connect : S → Impl S → Impl S
  connect call st = record st {
    added = st.added ++ record { slot = call; id = st.id } ∷ [];
    id = st.id + 1;
  }

  unfoldable pub unsubscribe : ℕ → Impl S → Impl S
  unsubscribe itr st = record st {
    removed = set_insert itr st.removed;
    added = remove_by_index st.added itr;
  }

  unfoldable pub splice_added : Impl S → Impl S
  splice_added st = record st { list = st.list ++ st.added; added = [] }

  -- The two iterators of `clear_removed`.
  unfoldable pub clear_merge : List ℕ → List (SlotInfo S) → List (SlotInfo S)
  clear_merge [] bl = bl
  clear_merge (b ∷ bs) [] = []
  clear_merge (b ∷ bs) (x ∷ xs) = elim (ltb x.id b) [
    | true ↦ x ∷ clear_merge (b ∷ bs) xs
    | false ↦ elim (x.id == b) [ true ↦ clear_merge bs xs | false ↦ clear_merge bs (x ∷ xs) ]
  ]

  unfoldable pub clear_removed : Impl S → Impl S
  clear_removed st = record st { removed = []; list = clear_merge st.removed st.list }

  -- `clear`, and `unsubscribe_all`, which calls it.
  unfoldable pub clear : Impl S → Impl S
  clear st = record st { removed = []; list = []; added = [] }

  unfoldable pub run_calls : List (Call S) → Impl S → Impl S
  run_calls [] st = st
  run_calls (connects s ∷ cs) st = run_calls cs (connect s st)
  run_calls (unsubscribes k ∷ cs) st = run_calls cs (unsubscribe k st)

  -- `others` has what other threads ask for from the answer of `is_removed` on, which holds no lock
  -- any more, before the slot of that id is called or erased.
  unfoldable pub walk : Traits S → (ℕ → List (Call S)) → List (SlotInfo S) → Impl S → Pass S
  walk t others [] st = record { kept = []; state = st; ran = [] }
  walk t others (b ∷ bs) st = elim (set_has b.id st.removed) [
    | true ↦
        let st1 = record st { removed = set_erase b.id st.removed } in
        walk t others bs (run_calls (others b.id) st1)
    | false ↦
        let rest = walk t others bs (run_calls (others b.id ++ t.exec b.slot) st) in
        record {
          kept = if t.expired b.slot then rest.kept else b ∷ rest.kept;
          state = rest.state;
          ran = b.id ∷ rest.ran;
        }
  ]

  -- `operator ( )`, with the ids of the slots that it ran.
  unfoldable pub invoke : Traits S → (ℕ → List (Call S)) → Impl S → Impl S × List ℕ
  invoke t others st =
      let spliced = splice_added st in
      let pass = walk t others spliced.list spliced in
      (clear_removed (record pass.state { list = pass.kept }), pass.ran)

-- What users do with an observer object, in the order in which the object's mutexes let it happen;
-- `calls` has what other threads do while it lasts.
pub data Op {ℓ} (S : Type ℓ) : Type ℓ where
  subscribes : S → Op S
  disconnects : ℕ → Op S
  calls : (ℕ → List (Call S)) → Op S
  disconnects_all : Op S

module _ {ℓ} {S : Type ℓ} where
  unfoldable pub step : Traits S → Op S → Impl S → Impl S × List ℕ
  step t (subscribes s) st = (connect s st, [])
  step t (disconnects k) st = (unsubscribe k st, [])
  step t (calls others) st = invoke t others st
  step t disconnects_all st = (clear st, [])

  -- The object after a history, and the ids of the slots that ran in it.
  unfoldable pub run : Traits S → List (Op S) → Impl S → Impl S × List ℕ
  run t [] st = (st, [])
  run t (op ∷ ops) st =
      let (st1, ran) = step t op st in let (st2, more) = run t ops st1 in (st2, ran ++ more)
