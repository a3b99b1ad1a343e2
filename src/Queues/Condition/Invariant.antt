-- ===== src/Queues/Condition/Invariant.antt =====
-- Keys, handles and cancellation: every history keeps the map and the heap of slots in step.
use dep_srpc.Base.{
  ℕ, zero, suc, ◌≡◌, refl, ◌∙◌, true, none, some, List, [], ◌∷◌, ◌++◌, get_elem?, set,
}
use dep_srpc.Base.{Option-cases, Bool-cases, inl, inr}
use dep_srpc.Queues.Trait.{QueueTrait}
use dep_srpc.Queues.Condition.{
  Slot, Condition, canceled_result, Op, adds, erases, cancels, cancels_all, pushes, reads, find,
  at_slot, cancel_each, cancel_once, slot_cancel, slot_push, not_empty, read_for, new_slot,
  add_slot, erase_slot, cancel_slot, cancel_all, push_ptr, read_ptr, step, run,
}

module _ {ℓ} {A : Type ℓ} where
  -- `t` is `s` later: the key is the same, and a flag that was set is set.
  abbrev pub Later : Slot A → Slot A → Type 0
  Later s t = (t.key ≡ s.key) × (s.canceled ≡ true → t.canceled ≡ true)

  -- The second heap is the first one later, with new slots at the end.
  abbrev pub Evolves : List (Slot A) → List (Slot A) → Type 0
  Evolves [] ts = Unit
  Evolves (s ∷ ss) [] = ⊥
  Evolves (s ∷ ss) (t ∷ ts) = Later s t × Evolves ss ts

  Later-refl : (s : Slot A) → Later s s
  Later-refl s = (refl, λ e. e)

  pub Evolves-refl : (ss : List (Slot A)) → Evolves ss ss
  Evolves-refl [] = tt
  Evolves-refl (s ∷ ss) = (Later-refl s, Evolves-refl ss)

  pub Evolves-trans : (ss ts us : List (Slot A)) → Evolves ss ts → Evolves ts us → Evolves ss us
  Evolves-trans [] ts us p q = tt
  Evolves-trans (s ∷ ss) (t ∷ ts) (u ∷ us) ((k, c), p) ((l, d), q) =
      ((l ∙ k, λ e. d (c e)), Evolves-trans ss ts us p q)
  Evolves-trans (s ∷ ss) (t ∷ ts) [] p q = absurd q
  Evolves-trans (s ∷ ss) [] us p q = absurd p

  Evolves-append : (ss ts : List (Slot A)) → Evolves ss (ss ++ ts)
  Evolves-append [] ts = tt
  Evolves-append (s ∷ ss) ts = (Later-refl s, Evolves-append ss ts)

  pub Evolves-at_slot :
      (f : Slot A → Slot A) (i : ℕ) (ss : List (Slot A))
      → ((s : Slot A) → Later s (f s))
      → Evolves ss (at_slot f i ss)
  unfolding at_slot
  Evolves-at_slot f i [] h = tt
  Evolves-at_slot f zero (s ∷ ss) h = (h s, Evolves-refl ss)
  Evolves-at_slot f (suc i) (s ∷ ss) h = (Later-refl s, Evolves-at_slot f i ss h)

  pub Evolves-set :
      (i : ℕ) (s t : Slot A) (ss : List (Slot A))
      → get_elem? ss i ≡ some s
      → Later s t
      → Evolves ss (set ss i t)
  Evolves-set i s t [] here h = tt
  Evolves-set zero s t (x ∷ ss) here h = let same : x ≡ s = cc in (rw same h, Evolves-refl ss)
  Evolves-set (suc i) s t (x ∷ ss) here h = (Later-refl x, Evolves-set i s t ss here h)

  pub cancel-Later : (s : Slot A) → Later s (slot_cancel s)
  unfolding slot_cancel
  cancel-Later s = (refl, λ e. refl)

  pub cancel_once-Later : (s : Slot A) → Later s (cancel_once s)
  unfolding cancel_once slot_cancel
  cancel_once-Later s = elim (Bool-cases s.canceled) [
    | inl e ↦ rw e (refl, λ h. refl)
    | inr e ↦ rw e (refl, λ h. refl)
  ]

  pub push-Later : (q : QueueTrait A) (v : A) (s : Slot A) → Later s (slot_push q v s)
  unfolding slot_push
  push-Later q v s = (refl, λ e. e)

  pub read_for-Later : (q : QueueTrait A) (s : Slot A) → Later s (read_for q s).2
  unfolding read_for
  read_for-Later q s = elim (Bool-cases (not_empty q s)) [
    | inl w ↦ elim (Bool-cases s.canceled) [
      | inl e ↦ rw (w, e, read_for) (refl, λ h. refl)
      | inr e ↦ rw (w, e, read_for) (refl, λ h. h)
    ]
    | inr w ↦ rw (w, read_for) (refl, λ h. h)
  ]

  pub Evolves-cancel_each : (m : List (ℕ × ℕ)) (ss : List (Slot A)) → Evolves ss (cancel_each m ss)
  unfolding cancel_each
  Evolves-cancel_each [] ss = Evolves-refl ss
  Evolves-cancel_each ((k, h) ∷ m) ss =
      Evolves-trans ss (at_slot slot_cancel h ss) (cancel_each m (at_slot slot_cancel h ss))
        (Evolves-at_slot slot_cancel h ss cancel-Later)
        (Evolves-cancel_each m (at_slot slot_cancel h ss))

  pub read_ptr-Evolves :
      (q : QueueTrait A) (i : ℕ) (c : Condition A) → Evolves c.heap (read_ptr q i c).1.heap
  unfolding read_ptr
  read_ptr-Evolves q i c = elim (Option-cases (get_elem? c.heap i)) [
    | inl gone ↦ rw (gone, read_ptr) (Evolves-refl c.heap)
    | inr (s, here) ↦
        rw (here, read_ptr) (Evolves-set i s (read_for q s).2 c.heap here (read_for-Later q s))
  ]

  -- No operation changes a key or takes a cancellation back.
  pub step-Evolves :
      (q : QueueTrait A) (op : Op A) (c : Condition A) → Evolves c.heap (step q op c).0.heap
  unfolding step add_slot erase_slot cancel_slot cancel_all push_ptr
  step-Evolves q (adds k) c = elim (Option-cases (find k c.map)) [
    | inl new ↦ rw (new, add_slot) (Evolves-append c.heap (new_slot k ∷ []))
    | inr (f, old) ↦ rw (old, add_slot) (Evolves-refl c.heap)
  ]
  step-Evolves q (erases k) c = elim (Option-cases (find k c.map)) [
    | inl new ↦ rw (new, erase_slot) (Evolves-refl c.heap)
    | inr (f, old) ↦ rw (old, erase_slot) (Evolves-at_slot cancel_once f c.heap cancel_once-Later)
  ]
  step-Evolves q (cancels k) c = elim (Option-cases (find k c.map)) [
    | inl new ↦ rw (new, cancel_slot) (Evolves-refl c.heap)
    | inr (f, old) ↦ rw (old, cancel_slot) (Evolves-at_slot slot_cancel f c.heap cancel-Later)
  ]
  step-Evolves q cancels_all c = Evolves-cancel_each c.map c.heap
  step-Evolves q (pushes i v) c = Evolves-at_slot (slot_push q v) i c.heap (push-Later q v)
  step-Evolves q (reads i) c = read_ptr-Evolves q i c

  pub run-Evolves :
      (q : QueueTrait A) (ops : List (Op A)) (c : Condition A) → Evolves c.heap (run q ops c).0.heap
  unfolding run
  run-Evolves q [] c = Evolves-refl c.heap
  run-Evolves q (op ∷ ops) c =
      let c1 : Condition A = (step q op c).0 in
      Evolves-trans c.heap c1.heap (run q ops c1).0.heap (step-Evolves q op c)
        (run-Evolves q ops c1)

  pub Evolves-at :
      (h : ℕ) (s : Slot A) (ss ts : List (Slot A))
      → Evolves ss ts
      → get_elem? ss h ≡ some s
      → (t : Slot A) × (get_elem? ts h ≡ some t) × Later s t
  Evolves-at h s [] ts p here = absurd (cc here)
  Evolves-at h s (x ∷ ss) [] p here = absurd p
  Evolves-at zero s (x ∷ ss) (t ∷ ts) p here = let same : x ≡ s = cc in (t, refl, rw same at p.0)
  Evolves-at (suc h) s (x ∷ ss) (t ∷ ts) p here = Evolves-at h s ss ts p.1 here

  pub read_for-canceled :
      (q : QueueTrait A) (s : Slot A)
      → s.canceled ≡ true
      → read_for q s ≡ (canceled_result, none, s)
  unfolding read_for not_empty
  read_for-canceled q s e = elim (Bool-cases (q.empty s.data_)) [
    | inl d ↦ rw (d, e) refl
    | inr d ↦ rw (d, e) refl
  ]

  -- A slot that is canceled answers every later read with CANCELED, at once and with no value,
  -- whatever is pushed into it, and also when it is no longer in the map.
  pub canceled_reads :
      (q : QueueTrait A) (h : ℕ) (s : Slot A) (ops : List (Op A)) (c : Condition A)
      → get_elem? c.heap h ≡ some s
      → s.canceled ≡ true
      → (read_ptr q h (run q ops c).0).0 ≡ some (canceled_result, none)
  unfolding read_ptr
  canceled_reads q h s ops c here e =
      let (t, there, later) =
        Evolves-at h s c.heap (run q ops c).0.heap (run-Evolves q ops c) here in
      rw (there, read_ptr, read_for-canceled q t (later.1 e)) refl
