-- ===== src/Queues/Condition.antt =====
-- include/srpc/common/queues/condition.h. A `slot_ptr` is the place of its slot in `heap`, which
-- keeps every slot that was made, so that a handle stays good after `erase_slot`; `map` takes keys
-- to handles. Each operation holds its lock from end to end. A read is modelled from the moment
-- when `wait_for` returns: with the lock held, and with the value of its predicate at that moment.
pub mod Heap
pub mod Invariant
pub mod Fifo
pub mod Map
pub mod Keys
use dep_srpc.Base.{
  ℕ, zero, suc, ◌+◌, Bool, true, false, not, ◌||◌, ◌==◌, if◌then◌else◌, Option, none, some, List,
  [], ◌∷◌, ◌++◌, length, get_elem?, set,
}
use dep_srpc.Queues.Trait.{QueueTrait}

-- `result_enum`.
pub data ResultEnum : Type 0 where
  ok canceled_result timeout notfound : ResultEnum

-- `slot_type`: `flag_` has one bit, `FLAG_CANCELED`.
pub record Slot {ℓ} (A : Type ℓ) : Type ℓ where
  pub key : ℕ
  pub data_ : List A
  pub canceled : Bool

pub record Condition {ℓ} (A : Type ℓ) : Type ℓ where
  pub heap : List (Slot A)
  pub map : List (ℕ × ℕ)

-- `map_.find` and `map_.erase`.
unfoldable pub find : ℕ → List (ℕ × ℕ) → Option ℕ
find index [] = none
find index ((k, h) ∷ m) = if k == index then some h else find index m

unfoldable pub map_erase : ℕ → List (ℕ × ℕ) → List (ℕ × ℕ)
map_erase index [] = []
map_erase index ((k, h) ∷ m) = if k == index then m else (k, h) ∷ map_erase index m

module _ {ℓ} {A : Type ℓ} where
  -- The slot's own operations, on the value it holds under its lock.
  unfoldable pub new_slot : ℕ → Slot A
  new_slot key = record { key = key; data_ = []; canceled = false }

  unfoldable pub slot_cancel : Slot A → Slot A
  slot_cancel s = record s { canceled = true }

  unfoldable pub slot_push : QueueTrait A → A → Slot A → Slot A
  slot_push q value s = record s { data_ = q.push s.data_ value }

  -- `not_empty`, the predicate that a reader waits for.
  unfoldable pub not_empty : QueueTrait A → Slot A → Bool
  not_empty q s = not (q.empty s.data_) || s.canceled

  -- `read_for` when `wait_for` has returned: the result, the value read and the slot.
  unfoldable pub read_for : QueueTrait A → Slot A → ResultEnum × Option A × Slot A
  read_for q s =
      if not_empty q s
      then if not s.canceled
        then (ok, q.front s.data_, record s { data_ = q.pop s.data_ })
        else (canceled_result, none, s)
      else (timeout, none, s)

  -- An operation on the slot behind a handle.
  unfoldable pub at_slot : (Slot A → Slot A) → ℕ → List (Slot A) → List (Slot A)
  at_slot f i [] = []
  at_slot f i (s ∷ ss) = elim i [ zero ↦ f s ∷ ss | suc j ↦ s ∷ at_slot f j ss ]

  unfoldable pub get_slot : ℕ → Condition A → Option ℕ
  get_slot index c = find index c.map

  unfoldable pub add_slot : ℕ → Condition A → ℕ × Condition A
  add_slot index c = elim (find index c.map) [
    | some slot ↦ (slot, c)
    | none ↦
        let slot = length c.heap in
        (slot, record { heap = c.heap ++ new_slot index ∷ []; map = (index, slot) ∷ c.map })
  ]

  -- What `erase_slot` does to the slot that it takes out of the map.
  unfoldable pub cancel_once : Slot A → Slot A
  cancel_once s = if not s.canceled then slot_cancel s else s

  unfoldable pub erase_slot : ℕ → Condition A → ResultEnum × Condition A
  erase_slot index c = elim (find index c.map) [
    | some f ↦ (ok, record { heap = at_slot cancel_once f c.heap; map = map_erase index c.map })
    | none ↦ (notfound, c)
  ]

  unfoldable pub cancel_each : List (ℕ × ℕ) → List (Slot A) → List (Slot A)
  cancel_each [] heap = heap
  cancel_each ((k, h) ∷ m) heap = cancel_each m (at_slot slot_cancel h heap)

  unfoldable pub cancel_all : Condition A → Condition A
  cancel_all c = record c { heap = cancel_each c.map c.heap }

  unfoldable pub cancel_slot : ℕ → Condition A → ResultEnum × Condition A
  cancel_slot index c = elim (find index c.map) [
    | some f ↦ (ok, record c { heap = at_slot slot_cancel f c.heap })
    | none ↦ (notfound, c)
  ]

  -- `push` and `read_for` through a handle; no result for a handle that is no slot's.
  unfoldable pub push_ptr : QueueTrait A → ℕ → A → Condition A → Condition A
  push_ptr q h value c = record c { heap = at_slot (slot_push q value) h c.heap }

  unfoldable pub read_ptr :
      QueueTrait A → ℕ → Condition A → Option (ResultEnum × Option A) × Condition A
  read_ptr q h c = elim (get_elem? c.heap h) [
    | none ↦ (none, c)
    | some s ↦ let (r, v, s1) = read_for q s in (some (r, v), record c { heap = set c.heap h s1 })
  ]

  unfoldable pub push_to_slot : QueueTrait A → ℕ → A → Condition A → ResultEnum × Condition A
  push_to_slot q index value c = elim (get_slot index c) [
    | some slot ↦ (ok, push_ptr q slot value c)
    | none ↦ (notfound, c)
  ]

  unfoldable pub read_slot :
      QueueTrait A → ℕ → Condition A → Option (ResultEnum × Option A) × Condition A
  read_slot q id c = elim (get_slot id c) [
    | some slot ↦ read_ptr q slot c
    | none ↦ (some (notfound, none), c)
  ]

-- What threads do with the object, in the order in which its locks let it happen. An operation that
-- finds a slot by key and then uses it is a `find` that changes nothing and a use of the handle.
pub data Op {ℓ} (A : Type ℓ) : Type ℓ where
  adds erases cancels : ℕ → Op A
  cancels_all : Op A
  pushes : ℕ → A → Op A
  reads : ℕ → Op A

module _ {ℓ} {A : Type ℓ} where
  -- The handle and the value of a read that got one.
  unfoldable pub got_of : ℕ → Option (ResultEnum × Option A) → List (ℕ × A)
  got_of h (some (ok, some v)) = (h, v) ∷ []
  got_of h _ = []

  unfoldable pub step : QueueTrait A → Op A → Condition A → Condition A × List (ℕ × A)
  step q (adds k) c = ((add_slot k c).1, [])
  step q (erases k) c = ((erase_slot k c).1, [])
  step q (cancels k) c = ((cancel_slot k c).1, [])
  step q cancels_all c = (cancel_all c, [])
  step q (pushes h v) c = (push_ptr q h v c, [])
  step q (reads h) c = ((read_ptr q h c).1, got_of h (read_ptr q h c).0)

  -- The object after a history, and the values that its reads got, with their handles.
  unfoldable pub run : QueueTrait A → List (Op A) → Condition A → Condition A × List (ℕ × A)
  run q [] c = (c, [])
  run q (op ∷ ops) c =
      let (c1, got) = step q op c in let (c2, more) = run q ops c1 in (c2, got ++ more)
