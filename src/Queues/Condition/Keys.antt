-- ===== src/Queues/Condition/Keys.antt =====
-- The map of keys and the heap of slots stay in step.
use dep_srpc.Base.{
  ℕ, zero, suc, ◌<◌, ◌≡◌, refl, sym, ◌∙◌, arith, true, ◌==◌, none, some, List, [], ◌∷◌, ◌++◌,
  length, get_elem?, set,
}
use dep_srpc.Base.{length-append, Option-cases, Bool-cases, ==_iff, ==_self, ◌⊎◌, inl, inr}
use dep_srpc.Base.{ltb, ltb→lt}
use mathlib.Core.Option.{some-injective}
use dep_srpc.Queues.Trait.{QueueTrait}
use dep_srpc.Queues.Condition.{
  Slot, Condition, ok, canceled_result, Op, adds, erases, cancels, cancels_all, pushes, reads, find,
  map_erase, at_slot, cancel_each, cancel_once, slot_cancel, slot_push, read_for, new_slot,
  add_slot, erase_slot, cancel_slot, cancel_all, push_ptr, read_ptr, step, run,
}
use dep_srpc.Queues.Condition.Heap.{
  length-at_slot, length-set, length-cancel_each, get_elem?-at_slot, get_elem?-append,
  get_elem?-last,
}
use dep_srpc.Queues.Condition.Invariant.{
  Later, Evolves, Evolves-at, Evolves-at_slot, Evolves-set, read_for-Later, Evolves-cancel_each,
  push-Later, cancel_once-Later, cancel-Later, canceled_reads,
}
use dep_srpc.Queues.Condition.Map.{Distinct, find-erase, find-erase_ne, ltb-false, erase-Distinct}

module _ {ℓ} {A : Type ℓ} where
  -- A key leads to a slot of that key; a slot that its key does not lead to is canceled.
  pub record Matched (c : Condition A) : Type ℓ where
    pub distinct : Distinct c.map
    pub mapped :
        (k h : ℕ)
        → find k c.map ≡ some h
        → (s : Slot A) × (get_elem? c.heap h ≡ some s) × (s.key ≡ k)
    pub dropped :
        (h : ℕ) (s : Slot A)
        → get_elem? c.heap h ≡ some s
        → (find s.key c.map ≡ some h) ⊎ (s.canceled ≡ true)

  abbrev pub empty_condition : Condition A
  empty_condition = record { heap = []; map = [] }

  pub empty-Matched : Matched empty_condition
  unfolding find
  empty-Matched = record {
    distinct = tt;
    mapped = λ k h e. absurd (cc e);
    dropped = λ h s e. absurd (cc e);
  }

  in_bounds : (h : ℕ) (s : Slot A) (ss : List (Slot A)) → get_elem? ss h ≡ some s → h < length ss
  in_bounds h s [] e = absurd (cc e)
  in_bounds zero s (x ∷ ss) e = omega arith
  in_bounds (suc h) s (x ∷ ss) e = omega (arith, in_bounds h s ss e)

  get_at : (h : ℕ) (ss : List (Slot A)) → h < length ss → (s : Slot A) × (get_elem? ss h ≡ some s)
  get_at h [] lt = absurd (omega arith)
  get_at zero (x ∷ ss) lt = (x, refl)
  get_at (suc h) (x ∷ ss) lt = get_at h ss (omega arith)

  -- What stands at a handle later came from what stood there.
  came_from :
      (h : ℕ) (t : Slot A) (ss ts : List (Slot A))
      → Evolves ss ts
      → length ts ≡ length ss
      → get_elem? ts h ≡ some t
      → (s : Slot A) × (get_elem? ss h ≡ some s) × Later s t
  came_from h t ss ts ev same there =
      let bound : h < length ts = in_bounds h t ts there in
      let (s, here) = get_at h ss (omega arith) in
      let (u, there', later) = Evolves-at h s ss ts ev here in
      let eq : u ≡ t = cc in (s, here, rw eq at later)

  -- An operation that changes slots only keeps the invariant.
  heap-Matched :
      (c : Condition A) (ts : List (Slot A))
      → Evolves c.heap ts
      → length ts ≡ length c.heap
      → Matched c
      → Matched (record c { heap = ts })
  heap-Matched c ts ev same v = record {
    distinct = v.distinct;
    mapped = λ k h e.
        let (s, here, key) = v.mapped k h e in
        let (t, there, later) = Evolves-at h s c.heap ts ev here in (t, there, later.0 ∙ key);
    dropped = λ h t there.
        let (s, here, later) = came_from h t c.heap ts ev same there in
        elim (v.dropped h s here) [
          | inl found ↦ inl (rw later.0 found)
          | inr gone ↦ inr (later.1 gone)
        ];
  }

  add_slot-Matched : (k : ℕ) (c : Condition A) → Matched c → Matched (add_slot k c).1
  unfolding add_slot find new_slot
  add_slot-Matched k c v = elim (Option-cases (find k c.map)) [
    | inl new ↦ rw (new, add_slot) (added new)
    | inr (f, old) ↦ rw (old, add_slot) v
  ]
    where
      old_one :
          (h : ℕ) (s : Slot A)
          → find k c.map ≡ none
          → get_elem? c.heap h ≡ some s
          → (find s.key ((k, length c.heap) ∷ c.map) ≡ some h) ⊎ (s.canceled ≡ true)
      old_one h s new here = elim (v.dropped h s here) [
        | inl found ↦ elim (Bool-cases (k == s.key)) [
          | inl same ↦ absurd (cc ((==_iff k s.key).0 same, found, new))
          | inr other ↦ inl (rw (other, find) found)
        ]
        | inr gone ↦ inr gone
      ]

      added :
          find k c.map ≡ none
          → Matched (record { heap = c.heap ++ new_slot k ∷ []; map = (k, length c.heap) ∷ c.map })
      added new = record {
        distinct = (new, v.distinct);
        mapped = λ j h e. elim (Bool-cases (k == j)) [
          | inl same ↦
              let at_end : length c.heap ≡ h =
                some-injective (length c.heap) h (rw (same, find) at e) in
              (new_slot k, rw (← at_end) (get_elem?-last c.heap (new_slot k)), (==_iff k j).0 same)
          | inr other ↦
              let (s, here, key) = v.mapped j h (rw (other, find) at e) in
              (
                s,
                get_elem?-append h c.heap (new_slot k ∷ []) (in_bounds h s c.heap here) ∙ here,
                key,
              )
        ];
        dropped = λ h s there. elim (Bool-cases (ltb h (length c.heap))) [
          | inl before ↦
              let lt : h < length c.heap = ltb→lt h (length c.heap) before in
              old_one h s new (sym (get_elem?-append h c.heap (new_slot k ∷ []) lt) ∙ there)
          | inr beyond ↦
              let bound = in_bounds h s (c.heap ++ new_slot k ∷ []) there in
              let at_end : length c.heap ≡ h = omega (
                arith,
                bound,
                length-append c.heap (new_slot k ∷ []),
                (ltb-false h (length c.heap) beyond),
              ) in
              let same : new_slot k ≡ s =
                some-injective (new_slot k) s
                  (sym (get_elem?-last c.heap (new_slot k)) ∙ rw (← at_end) at there) in
              inl (rw (← same, ==_self k, at_end) refl)
        ];
      }

  cancel_once-canceled : (s : Slot A) → (cancel_once s).canceled ≡ true
  unfolding cancel_once slot_cancel
  cancel_once-canceled s = elim (Bool-cases s.canceled) [ inl e ↦ rw e refl | inr e ↦ rw e refl ]

  erased_slot :
      (f h : ℕ) (s t : Slot A) (ss : List (Slot A))
      → f ≡ h
      → get_elem? ss h ≡ some s
      → get_elem? (at_slot cancel_once f ss) h ≡ some t
      → t.canceled ≡ true
  erased_slot f h s t ss hit here there =
      let found : get_elem? (at_slot cancel_once h ss) h ≡ some (cancel_once s) =
        get_elem?-at_slot cancel_once h ss ∙ rw here refl in
      let same : cancel_once s ≡ t =
        some-injective (cancel_once s) t (sym found ∙ rw hit at there) in
      rw (← same) (cancel_once-canceled s)

  erase_slot-Matched : (k : ℕ) (c : Condition A) → Matched c → Matched (erase_slot k c).1
  unfolding erase_slot
  erase_slot-Matched k c v = elim (Option-cases (find k c.map)) [
    | inl missing ↦ rw (missing, erase_slot) v
    | inr (f, old) ↦ rw (old, erase_slot) (erased f old)
  ]
    where
      erased :
          (f : ℕ)
          → find k c.map ≡ some f
          → Matched (record { heap = at_slot cancel_once f c.heap; map = map_erase k c.map })
      erased f old =
          let ev : Evolves c.heap (at_slot cancel_once f c.heap) =
            Evolves-at_slot cancel_once f c.heap cancel_once-Later in
          record {
            distinct = erase-Distinct k c.map v.distinct;
            mapped = λ j h e. elim (Bool-cases (k == j)) [
              | inl same ↦ absurd (cc ((==_iff k j).0 same, find-erase k c.map v.distinct, e))
              | inr other ↦
                  let (s, here, key) = v.mapped j h (sym (find-erase_ne k j c.map other) ∙ e) in
                  let (t, there, later) =
                    Evolves-at h s c.heap (at_slot cancel_once f c.heap) ev here in
                  (t, there, later.0 ∙ key)
            ];
            dropped = λ h t there.
                let (s, here, later) =
                  came_from h t c.heap (at_slot cancel_once f c.heap) ev
                    (length-at_slot cancel_once f c.heap) there in
                elim (v.dropped h s here) [
                  | inl found ↦ elim (Bool-cases (k == s.key)) [
                    | inl same ↦
                        let hit : f ≡ h =
                          some-injective f h (cc ((==_iff k s.key).0 same, found, old)) in
                        inr (erased_slot f h s t c.heap hit here there)
                    | inr other ↦ inl (rw (later.0, find-erase_ne k s.key c.map other) found)
                  ]
                  | inr gone ↦ inr (later.1 gone)
                ];
          }

  pub step-Matched :
      (q : QueueTrait A) (op : Op A) (c : Condition A) → Matched c → Matched (step q op c).0
  unfolding step cancel_slot cancel_all push_ptr read_ptr
  step-Matched q (adds k) c v = add_slot-Matched k c v
  step-Matched q (erases k) c v = erase_slot-Matched k c v
  step-Matched q (cancels k) c v = elim (Option-cases (find k c.map)) [
    | inl missing ↦ rw (missing, cancel_slot) v
    | inr (f, old) ↦
        rw (old, cancel_slot)
          (heap-Matched c (at_slot slot_cancel f c.heap)
            (Evolves-at_slot slot_cancel f c.heap cancel-Later)
            (length-at_slot slot_cancel f c.heap) v)
  ]
  step-Matched q cancels_all c v =
      heap-Matched c (cancel_each c.map c.heap) (Evolves-cancel_each c.map c.heap)
        (length-cancel_each c.map c.heap) v
  step-Matched q (pushes i x) c v =
      heap-Matched c (at_slot (slot_push q x) i c.heap)
        (Evolves-at_slot (slot_push q x) i c.heap (push-Later q x))
        (length-at_slot (slot_push q x) i c.heap) v
  step-Matched q (reads i) c v = elim (Option-cases (get_elem? c.heap i)) [
    | inl gone ↦ rw (gone, read_ptr) v
    | inr (s, here) ↦
        let s1 : Slot A = (read_for q s).2 in
        rw (here, read_ptr)
          (heap-Matched c (set c.heap i s1) (Evolves-set i s s1 c.heap here (read_for-Later q s))
            (length-set i s1 c.heap) v)
  ]

  -- Every history that starts with the map and the heap in step keeps them so: no key stands twice
  -- in the map, a key leads to a slot of that key, and a slot that its key does not lead to is
  -- canceled.
  pub run-Matched :
      (q : QueueTrait A) (ops : List (Op A)) (c : Condition A) → Matched c → Matched (run q ops c).0
  unfolding run
  run-Matched q [] c v = v
  run-Matched q (op ∷ ops) c v = run-Matched q ops (step q op c).0 (step-Matched q op c v)

  -- Where the map and the slots are in step and the key is in the map, `erase_slot` succeeds and
  -- lets go every reader of the slot: whoever still has the handle gets CANCELED from each later
  -- read, whatever happens in between, and a `find` of the key gets nothing.
  pub erase_slot-canceled :
      (q : QueueTrait A) (k h : ℕ) (ops : List (Op A)) (c : Condition A)
      → Matched c
      → find k c.map ≡ some h
      → ((erase_slot k c).0 ≡ ok)
        × ((find k (erase_slot k c).1.map ≡ none)
            × ((read_ptr q h (run q ops (erase_slot k c).1).0).0 ≡ some (canceled_result, none)))
  unfolding erase_slot
  erase_slot-canceled q k h ops c v old =
      let (s, here, key) = v.mapped k h old in
      let c1 : Condition A = record {
        heap = at_slot cancel_once h c.heap;
        map = map_erase k c.map;
      } in
      let there : get_elem? c1.heap h ≡ some (cancel_once s) =
        get_elem?-at_slot cancel_once h c.heap ∙ rw here refl in
      rw (old, erase_slot)
        (
          refl,
          (
            find-erase k c.map v.distinct,
            canceled_reads q h (cancel_once s) ops c1 there (cancel_once-canceled s),
          ),
        )
