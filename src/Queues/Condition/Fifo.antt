-- ===== src/Queues/Condition/Fifo.antt =====
-- What is pushed through a handle is read through it, once and in order, whatever else happens.
use dep_srpc.Base.{
  ℕ, zero, suc, ◌<◌, ◌≡◌, refl, ap, sym, ◌∙◌, arith, Bool, true, false, ◌==◌, if◌then◌else◌, Option,
  none, some, List, [], ◌∷◌, ◌++◌, append_assoc, append-nil, length, get_elem?, set,
}
use dep_srpc.Base.{length-append, Bool-cases, Option-cases, ==_iff, ==_self, ◌⊎◌, inl, inr}
use dep_srpc.Queues.Trait.{QueueTrait, simple, first, is_empty, rest_of}
use dep_srpc.Queues.Condition.{
  Slot, Condition, ResultEnum, ok, canceled_result, timeout, notfound, Op, adds, erases, cancels,
  cancels_all, pushes, reads, find, at_slot, cancel_each, cancel_once, slot_cancel, slot_push,
  not_empty, read_for, new_slot, add_slot, erase_slot, cancel_slot, cancel_all, push_ptr, read_ptr,
  got_of, step, run,
}
use dep_srpc.Queues.Condition.Heap.{
  length-at_slot, length-set, length-cancel_each, get_elem?-at_slot_ne, get_elem?-set,
  get_elem?-set_ne, get_elem?-append,
}

module _ {ℓ} {A : Type ℓ} where
  -- The values that wait in the slot behind a handle.
  unfoldable pub data_at : ℕ → List (Slot A) → List A
  data_at h ss = elim (get_elem? ss h) [ none ↦ [] | some s ↦ s.data_ ]

  -- The values that a history pushes through the handle, and those that its reads got from it.
  unfoldable pub pushed : ℕ → List (Op A) → List A
  pushed h [] = []
  pushed h (pushes i v ∷ ops) = if i == h then v ∷ pushed h ops else pushed h ops
  pushed h (_ ∷ ops) = pushed h ops

  unfoldable pub values : ℕ → List (ℕ × A) → List A
  values h [] = []
  values h ((i, v) ∷ got) = if i == h then v ∷ values h got else values h got

  values-append : (h : ℕ) (xs ys : List (ℕ × A)) → values h (xs ++ ys) ≡ values h xs ++ values h ys
  unfolding values
  values-append h [] ys = refl
  values-append h ((i, v) ∷ xs) ys = elim (Bool-cases (i == h)) [
    | inl e ↦ rw e (ap (λ t. v ∷ t) (values-append h xs ys))
    | inr e ↦ rw e (values-append h xs ys)
  ]

  -- An operation that leaves the data alone.
  data_at-at_slot :
      (f : Slot A → Slot A) (i h : ℕ) (ss : List (Slot A))
      → ((s : Slot A) → (f s).data_ ≡ s.data_)
      → data_at h (at_slot f i ss) ≡ data_at h ss
  unfolding data_at at_slot
  data_at-at_slot f i h [] same = refl
  data_at-at_slot f zero zero (s ∷ ss) same = same s
  data_at-at_slot f zero (suc h) (s ∷ ss) same = refl
  data_at-at_slot f (suc i) zero (s ∷ ss) same = refl
  data_at-at_slot f (suc i) (suc h) (s ∷ ss) same = data_at-at_slot f i h ss same

  data_at-cancel_each :
      (h : ℕ) (m : List (ℕ × ℕ)) (ss : List (Slot A)) → data_at h (cancel_each m ss) ≡ data_at h ss
  unfolding cancel_each
  data_at-cancel_each h [] ss = refl
  data_at-cancel_each h ((k, i) ∷ m) ss =
      data_at-cancel_each h m (at_slot slot_cancel i ss)
      ∙ data_at-at_slot slot_cancel i h ss (λ s. unfold slot_cancel in refl)

  data_at-push :
      (h : ℕ) (v : A) (ss : List (Slot A))
      → h < length ss
      → data_at h (at_slot (slot_push simple v) h ss) ≡ data_at h ss ++ v ∷ []
  unfolding data_at at_slot slot_push
  data_at-push h v [] lt = absurd (omega arith)
  data_at-push zero v (s ∷ ss) lt = refl
  data_at-push (suc h) v (s ∷ ss) lt = data_at-push h v ss (omega arith)

  cancel_once-data : (s : Slot A) → (cancel_once s).data_ ≡ s.data_
  unfolding cancel_once slot_cancel
  cancel_once-data s = elim (Bool-cases s.canceled) [ inl e ↦ rw e refl | inr e ↦ rw e refl ]

  -- What a read gets and what it leaves are what there was.
  read_for-data :
      (h k : ℕ) (d : List A) (c : Bool)
      → let s : Slot A = record { key = k; data_ = d; canceled = c } in
        values h (got_of h (some ((read_for simple s).0, (read_for simple s).1)))
          ++ (read_for simple s).2.data_
        ≡ d
  unfolding read_for not_empty got_of values first is_empty rest_of
  read_for-data h k [] true = refl
  read_for-data h k [] false = refl
  read_for-data h k (v ∷ d) true = refl
  read_for-data h k (v ∷ d) false = rw (==_self h) refl

  values_other :
      (h i : ℕ) (r : ResultEnum) (v : Option A)
      → (i == h) ≡ false
      → values h (got_of i (some (r, v))) ≡ []
  unfolding got_of values
  values_other h i ok none e = refl
  values_other h i ok (some v) e = rw e refl
  values_other h i canceled_result v e = refl
  values_other h i timeout v e = refl
  values_other h i notfound v e = refl

  data_at-same :
      (h : ℕ) (ss ts : List (Slot A))
      → get_elem? ss h ≡ get_elem? ts h
      → data_at h ss ≡ data_at h ts
  unfolding data_at
  data_at-same h ss ts e = rw (e, data_at) refl

  data_at-some :
      (h : ℕ) (s : Slot A) (ss : List (Slot A)) → get_elem? ss h ≡ some s → data_at h ss ≡ s.data_
  unfolding data_at
  data_at-some h s ss e = rw (e, data_at) refl

  read_same :
      (h : ℕ) (s : Slot A) (ss : List (Slot A))
      → get_elem? ss h ≡ some s
      → values h (got_of h (some ((read_for simple s).0, (read_for simple s).1)))
          ++ data_at h (set ss h (read_for simple s).2)
        ≡ data_at h ss
  read_same h s ss here =
      let s1 : Slot A = (read_for simple s).2 in
      rw (data_at-some h s ss here, data_at-some h s1 (set ss h s1) (get_elem?-set h s1 s ss here))
        (read_for-data h s.key s.data_ s.canceled)

  data_at-read :
      (h i : ℕ) (c : Condition A)
      → values h (got_of i (read_ptr simple i c).0) ++ data_at h (read_ptr simple i c).1.heap
        ≡ data_at h c.heap
  unfolding read_ptr
  data_at-read h i c = elim (Option-cases (get_elem? c.heap i)) [
    | inl gone ↦ rw (gone, read_ptr) (unfold got_of values in refl)
    | inr (s, here) ↦ elim (Bool-cases (i == h)) [
      | inl e ↦
          let same : i ≡ h = (==_iff i h).0 e in
          rw (here, read_ptr) (rw same (read_same h s c.heap (rw same at here)))
      | inr e ↦
          rw (here, read_ptr, values_other h i (read_for simple s).0 (read_for simple s).1 e)
            (data_at-same h (set c.heap i (read_for simple s).2) c.heap
              (get_elem?-set_ne i h (read_for simple s).2 c.heap e))
    ]
  ]

  add_slot-heap :
      (k h : ℕ) (c : Condition A)
      → h < length c.heap
      → (data_at h (add_slot k c).1.heap ≡ data_at h c.heap) × (h < length (add_slot k c).1.heap)
  unfolding add_slot
  add_slot-heap k h c lt = elim (Option-cases (find k c.map)) [
    | inl new ↦
        rw (new, add_slot)
          (
            data_at-same h (c.heap ++ new_slot k ∷ []) c.heap
                (get_elem?-append h c.heap (new_slot k ∷ []) lt),
            rw (length-append c.heap (new_slot k ∷ [])) (omega arith),
          )
    | inr (f, old) ↦ rw (old, add_slot) (refl, lt)
  ]

  erase_slot-heap :
      (k h : ℕ) (c : Condition A)
      → h < length c.heap
      → (data_at h (erase_slot k c).1.heap ≡ data_at h c.heap)
        × (h < length (erase_slot k c).1.heap)
  unfolding erase_slot
  erase_slot-heap k h c lt = elim (Option-cases (find k c.map)) [
    | inl none_there ↦ rw (none_there, erase_slot) (refl, lt)
    | inr (f, old) ↦
        rw (old, erase_slot)
          (
            data_at-at_slot cancel_once f h c.heap cancel_once-data,
            omega (arith, length-at_slot cancel_once f c.heap),
          )
  ]

  cancel_slot-heap :
      (k h : ℕ) (c : Condition A)
      → h < length c.heap
      → (data_at h (cancel_slot k c).1.heap ≡ data_at h c.heap)
        × (h < length (cancel_slot k c).1.heap)
  unfolding cancel_slot
  cancel_slot-heap k h c lt = elim (Option-cases (find k c.map)) [
    | inl none_there ↦ rw (none_there, cancel_slot) (refl, lt)
    | inr (f, old) ↦
        rw (old, cancel_slot)
          (
            data_at-at_slot slot_cancel f h c.heap (λ s. unfold slot_cancel in refl),
            omega (arith, length-at_slot slot_cancel f c.heap),
          )
  ]

  pub read_ptr-length :
      (q : QueueTrait A) (i : ℕ) (c : Condition A) → length (read_ptr q i c).1.heap ≡ length c.heap
  unfolding read_ptr
  read_ptr-length q i c = elim (Option-cases (get_elem? c.heap i)) [
    | inl gone ↦ rw (gone, read_ptr) refl
    | inr (s, here) ↦ rw (here, read_ptr) (length-set i (read_for q s).2 c.heap)
  ]

  step-fifo :
      (h : ℕ) (op : Op A) (ops : List (Op A)) (c : Condition A)
      → h < length c.heap
      → (values h (step simple op c).1 ++ data_at h (step simple op c).0.heap ++ pushed h ops
          ≡ data_at h c.heap ++ pushed h (op ∷ ops))
        × (h < length (step simple op c).0.heap)
  unfolding step pushed values
  step-fifo h (adds k) ops c lt =
      let (same, there) = add_slot-heap k h c lt in (ap (λ d. d ++ pushed h ops) same, there)
  step-fifo h (erases k) ops c lt =
      let (same, there) = erase_slot-heap k h c lt in (ap (λ d. d ++ pushed h ops) same, there)
  step-fifo h (cancels k) ops c lt =
      let (same, there) = cancel_slot-heap k h c lt in (ap (λ d. d ++ pushed h ops) same, there)
  step-fifo h cancels_all ops c lt =
      unfold cancel_all in
      (
        ap (λ d. d ++ pushed h ops) (data_at-cancel_each h c.map c.heap),
        omega (arith, length-cancel_each c.map c.heap),
      )
  step-fifo h (pushes i v) ops c lt =
      unfold push_ptr in
      (push_at (Bool-cases (i == h)), omega (arith, length-at_slot (slot_push simple v) i c.heap))
    where
      push_at :
          ((i == h) ≡ true) ⊎ ((i == h) ≡ false)
          → data_at h (at_slot (slot_push simple v) i c.heap) ++ pushed h ops
            ≡ data_at h c.heap ++ (if i == h then v ∷ pushed h ops else pushed h ops)
      push_at (inl e) =
          let same : i ≡ h = (==_iff i h).0 e in
          rw (e, same, data_at-push h v c.heap lt)
            (append_assoc (data_at h c.heap) (v ∷ []) (pushed h ops))
      push_at (inr e) =
          rw
            (
              e,
              data_at-same h (at_slot (slot_push simple v) i c.heap) c.heap
                  (get_elem?-at_slot_ne (slot_push simple v) i h c.heap e),
            )
            refl
  step-fifo h (reads i) ops c lt =
      (ap (λ d. d ++ pushed h ops) (data_at-read h i c), omega (arith, read_ptr-length simple i c))

  -- For a handle that was given out, with the first-in first-out container, and whatever the other
  -- threads add, erase, cancel, push and read: the values that the reads of a slot got, and then
  -- those that still wait in it, are those that waited in it and then those pushed to it, in this
  -- order.
  pub run-fifo :
      (h : ℕ) (ops : List (Op A)) (c : Condition A)
      → h < length c.heap
      → values h (run simple ops c).1 ++ data_at h (run simple ops c).0.heap
        ≡ data_at h c.heap ++ pushed h ops
  unfolding run
  run-fifo h [] c lt = unfold values pushed in sym (append-nil (data_at h c.heap))
  run-fifo h (op ∷ ops) c lt =
      let c1 : Condition A = (step simple op c).0 in
      let (same, there) = step-fifo h op ops c lt in
      rw (values-append h (step simple op c).1 (run simple ops c1).1) (
        append_assoc (values h (step simple op c).1) (values h (run simple ops c1).1)
          (data_at h (run simple ops c1).0.heap)
        ∙ ap (λ d. values h (step simple op c).1 ++ d) (run-fifo h ops c1 there)
        ∙ sym (append_assoc (values h (step simple op c).1) (data_at h c1.heap) (pushed h ops))
        ∙ same)
