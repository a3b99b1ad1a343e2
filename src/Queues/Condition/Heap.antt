-- ===== src/Queues/Condition/Heap.antt =====
-- The heap of slots: what an operation on one handle leaves of the others.
use dep_srpc.Base.{
  ℕ, zero, suc, ◌<◌, ◌≡◌, refl, ap, arith, false, ◌==◌, none, some, List, [], ◌∷◌, ◌++◌, length,
  get_elem?, set,
}
use dep_srpc.Queues.Condition.{Slot, at_slot, cancel_each, slot_cancel}

module _ {ℓ} {A : Type ℓ} where
  pub length-at_slot :
      (f : Slot A → Slot A) (i : ℕ) (ss : List (Slot A)) → length (at_slot f i ss) ≡ length ss
  unfolding at_slot
  length-at_slot f i [] = refl
  length-at_slot f zero (s ∷ ss) = refl
  length-at_slot f (suc i) (s ∷ ss) = ap suc (length-at_slot f i ss)

  pub length-set : (i : ℕ) (v : Slot A) (ss : List (Slot A)) → length (set ss i v) ≡ length ss
  length-set i v [] = refl
  length-set zero v (s ∷ ss) = refl
  length-set (suc i) v (s ∷ ss) = ap suc (length-set i v ss)

  pub get_elem?-at_slot :
      (f : Slot A → Slot A) (i : ℕ) (ss : List (Slot A))
      → get_elem? (at_slot f i ss) i ≡ elim (get_elem? ss i) [ none ↦ none | some s ↦ some (f s) ]
  unfolding at_slot
  get_elem?-at_slot f i [] = refl
  get_elem?-at_slot f zero (s ∷ ss) = refl
  get_elem?-at_slot f (suc i) (s ∷ ss) = get_elem?-at_slot f i ss

  pub get_elem?-at_slot_ne :
      (f : Slot A → Slot A) (i h : ℕ) (ss : List (Slot A))
      → (i == h) ≡ false
      → get_elem? (at_slot f i ss) h ≡ get_elem? ss h
  unfolding at_slot
  get_elem?-at_slot_ne f i h [] e = refl
  get_elem?-at_slot_ne f zero zero (s ∷ ss) e = absurd (cc e)
  get_elem?-at_slot_ne f zero (suc h) (s ∷ ss) e = refl
  get_elem?-at_slot_ne f (suc i) zero (s ∷ ss) e = refl
  get_elem?-at_slot_ne f (suc i) (suc h) (s ∷ ss) e = get_elem?-at_slot_ne f i h ss (ground arith)

  pub get_elem?-set :
      (i : ℕ) (v s : Slot A) (ss : List (Slot A))
      → get_elem? ss i ≡ some s
      → get_elem? (set ss i v) i ≡ some v
  get_elem?-set i v s [] e = absurd (cc e)
  get_elem?-set zero v s (x ∷ ss) e = refl
  get_elem?-set (suc i) v s (x ∷ ss) e = get_elem?-set i v s ss e

  pub get_elem?-set_ne :
      (i h : ℕ) (v : Slot A) (ss : List (Slot A))
      → (i == h) ≡ false
      → get_elem? (set ss i v) h ≡ get_elem? ss h
  get_elem?-set_ne i h v [] e = refl
  get_elem?-set_ne zero zero v (s ∷ ss) e = absurd (cc e)
  get_elem?-set_ne zero (suc h) v (s ∷ ss) e = refl
  get_elem?-set_ne (suc i) zero v (s ∷ ss) e = refl
  get_elem?-set_ne (suc i) (suc h) v (s ∷ ss) e = get_elem?-set_ne i h v ss (ground arith)

  pub get_elem?-append :
      (h : ℕ) (ss ts : List (Slot A)) → h < length ss → get_elem? (ss ++ ts) h ≡ get_elem? ss h
  get_elem?-append h [] ts lt = absurd (omega arith)
  get_elem?-append zero (s ∷ ss) ts lt = refl
  get_elem?-append (suc h) (s ∷ ss) ts lt = get_elem?-append h ss ts (omega arith)

  pub get_elem?-last :
      (ss : List (Slot A)) (s : Slot A) → get_elem? (ss ++ s ∷ []) (length ss) ≡ some s
  get_elem?-last [] s = refl
  get_elem?-last (x ∷ ss) s = get_elem?-last ss s

  pub length-cancel_each :
      (m : List (ℕ × ℕ)) (ss : List (Slot A)) → length (cancel_each m ss) ≡ length ss
  unfolding cancel_each
  length-cancel_each [] ss = refl
  length-cancel_each ((k, h) ∷ m) ss =
      omega
        (arith, length-cancel_each m (at_slot slot_cancel h ss), length-at_slot slot_cancel h ss)
