-- ===== src/Factory.antt =====
-- include/srpc/common/factory.h. The map is the list of its entries, with at most one for each key,
-- and `same` compares keys. A producer is of any type, and `produce` calls it; `object` is the
-- object made by default. Each operation holds `map_lock_` throughout.
pub mod Laws
pub mod Tests
use dep_srpc.Base.{Bool, if◌then◌else◌, Option, none, some, List, [], ◌∷◌}

pub record Factory {ℓ} (K P : Type ℓ) : Type ℓ where
  pub map_ : List (K × P)

pub data Op {ℓ} (K P : Type ℓ) : Type ℓ where
  assigns : K → P → Op K P
  erases : K → Op K P

-- The end of `create`: what the producer that was found makes.
unfoldable pub call_found {ℓ} : {P O : Type ℓ} → (P → O) → O → Option P → O
call_found produce object none = object
call_found produce object (some producer) = produce producer

module _ {ℓ} {K P : Type ℓ} where
  unfoldable pub new_factory : Factory K P
  new_factory = record { map_ = [] }

module _ {ℓ} {K P : Type ℓ} (same : K → K → Bool) where
  -- The map's `find`, `operator []` with an assignment, and `erase`.
  unfoldable pub find : K → List (K × P) → Option P
  find name [] = none
  find name ((key, producer) ∷ rest) =
      let found = find name rest in if same name key then some producer else found

  unfoldable pub put : K → P → List (K × P) → List (K × P)
  put name new [] = (name, new) ∷ []
  put name new ((key, producer) ∷ rest) =
      let changed = put name new rest in
      if same name key then (key, new) ∷ rest else (key, producer) ∷ changed

  unfoldable pub remove : K → List (K × P) → List (K × P)
  remove name [] = []
  remove name ((key, producer) ∷ rest) =
      let left = remove name rest in if same name key then left else (key, producer) ∷ left

  unfoldable pub create : {O : Type ℓ} → (P → O) → O → K → Factory K P → O
  create produce object name f = call_found produce object (find name f.map_)

  unfoldable pub assign : K → P → Factory K P → Factory K P
  assign name producer f = record f { map_ = put name producer f.map_ }

  unfoldable pub erase : K → Factory K P → Factory K P
  erase name f = record f { map_ = remove name f.map_ }

  unfoldable pub step : Op K P → Factory K P → Factory K P
  step (assigns name producer) f = assign name producer f
  step (erases name) f = erase name f

  unfoldable pub run : List (Op K P) → Factory K P → Factory K P
  run [] f = f
  run (op ∷ ops) f = run ops (step op f)
