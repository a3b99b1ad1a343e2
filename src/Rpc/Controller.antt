-- ===== src/Rpc/Controller.antt =====
-- include/srpc/common/protobuf/controller.h and closure-holder.h. A closure is a number, running it
-- an event; while it runs it does not call the controller.
pub mod Cancel
pub mod Tests
use dep_srpc.Base.{ℕ, Bool, true, false, if◌then◌else◌, Option, none, some, List, [], ◌∷◌, ◌++◌}

pub record Controller : Type 0 where
  pub failed : Bool
  pub error_string : List ℕ
  pub canceled : Bool
  pub cancel_cl : Option ℕ

-- A call of a closure's `Run`.
pub data Event : Type 0 where
  runs : ℕ → Event

pub data Op : Type 0 where
  resets start_cancels : Op
  set_fails : List ℕ → Op
  notifies_on_cancel : ℕ → Op

unfoldable pub new_controller : Controller
new_controller = record { failed = false; error_string = []; canceled = false; cancel_cl = none }

unfoldable pub reset : Controller → Controller
reset c = record c { failed = false; canceled = false; cancel_cl = none; error_string = [] }

unfoldable pub start_cancel : Controller → Controller × List Event
start_cancel c = elim c.cancel_cl [
  | none ↦ (record c { canceled = true }, [])
  | some cl ↦ (record c { canceled = true; cancel_cl = none }, runs cl ∷ [])
]

unfoldable pub set_failed : List ℕ → Controller → Controller
set_failed reason c = record c { failed = true; error_string = reason }

unfoldable pub notify_on_cancel : ℕ → Controller → Controller × List Event
notify_on_cancel callback c =
    if c.canceled then (c, runs callback ∷ []) else (record c { cancel_cl = some callback }, [])

unfoldable pub step : Op → Controller → Controller × List Event
step resets c = (reset c, [])
step start_cancels c = start_cancel c
step (set_fails reason) c = (set_failed reason c, [])
step (notifies_on_cancel callback) c = notify_on_cancel callback c

unfoldable pub run : List Op → Controller → Controller × List Event
run [] c = (c, [])
run (op ∷ ops) c = let (c1, es) = step op c in let (c2, more) = run ops c1 in (c2, es ++ more)

-- `closure_holder`: its closure, NULL after a move.
pub record ClosureHolder : Type 0 where
  pub cl : Option ℕ

-- The move constructor: the new holder and the other one.
unfoldable pub move_new : ClosureHolder → ClosureHolder × ClosureHolder
move_new other = (record { cl = other.cl }, record { cl = none })

-- The move assignment to another holder: the target's closure is dropped without a call.
unfoldable pub move_to : ClosureHolder → ClosureHolder → ClosureHolder × ClosureHolder
move_to target other = (record { cl = other.cl }, record { cl = none })

-- The destructor.
unfoldable pub destroy : ClosureHolder → List Event
destroy h = elim h.cl [ none ↦ [] | some cl ↦ runs cl ∷ [] ]
