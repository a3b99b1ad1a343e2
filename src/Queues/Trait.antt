-- ===== src/Queues/Trait.antt =====
-- include/srpc/common/queues/traits: what a slot does with its container. `simple` keeps a
-- `std::queue`, here the list of its elements from the front; `priority` keeps a heap with the
-- standard library's `push_heap` and `pop_heap`, which are arguments of `priority`.
use dep_srpc.Base.{List, [], ◌∷◌, ◌++◌, Option, none, some, Bool, true, false}

-- `front` and `pop` of an empty container are undefined in the source; here `front` is `none`.
pub record QueueTrait {ℓ} (A : Type ℓ) : Type ℓ where
  pub push : List A → A → List A
  pub pop : List A → List A
  pub front : List A → Option A
  pub empty : List A → Bool

module _ {ℓ} {A : Type ℓ} where
  unfoldable pub first : List A → Option A
  first [] = none
  first (x ∷ xs) = some x

  unfoldable pub is_empty : List A → Bool
  is_empty [] = true
  is_empty (x ∷ xs) = false

  unfoldable pub rest_of : List A → List A
  rest_of [] = []
  rest_of (x ∷ xs) = xs

  -- `std::vector::pop_back`.
  unfoldable pub pop_back : List A → List A
  pop_back [] = []
  pop_back (x ∷ []) = []
  pop_back (x ∷ y ∷ ys) = x ∷ pop_back (y ∷ ys)

  abbrev pub simple : QueueTrait A
  simple = record {
    push = λ self val. self ++ val ∷ [];
    pop = rest_of;
    front = first;
    empty = is_empty;
  }

  abbrev pub priority : (List A → List A) → (List A → List A) → QueueTrait A
  priority push_heap pop_heap = record {
    push = λ self val. push_heap (self ++ val ∷ []);
    pop = λ self. pop_back (pop_heap self);
    front = first;
    empty = is_empty;
  }
