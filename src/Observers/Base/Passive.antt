-- ===== src/Observers/Base/Passive.antt =====
-- A call runs the live slots, each once and in the order of their ids.
use dep_srpc.Base.{ℕ, suc, ◌<◌, ◌≡◌, refl, ap, sym, ◌∙◌, arith}
use dep_srpc.Base.{
  Bool, true, false, ◌||◌, ◌==◌, if◌then◌else◌, Bool-cases, inl, inr, List, [], ◌∷◌, ◌++◌,
}
use dep_srpc.Observers.Base.{
  SlotInfo, Impl, Call, Traits, Pass, run_calls, unsubscribe, set_has, set_erase, set_insert,
  splice_added, clear_merge, clear_removed, walk, invoke,
}
use dep_srpc.Observers.Base.Search.{
  Increasing, without, without_all, remove_by_index-without, clear_merge-without_all,
  set_has-insert,
}
use dep_srpc.Observers.Base.Order.{Sub-Increasing, Sub-drop, Sub-take}
use dep_srpc.Observers.Base.Invariant.{Inv, walk-Ordered, splice_added-Inv}
use dep_srpc.Observers.Base.Dead.{set_has-erase_ne}

set_has-erase : (j k : ℕ) (ks : List ℕ) → set_has j ks ≡ false → set_has j (set_erase k ks) ≡ false
unfolding set_has set_erase
set_has-erase j k [] h = h
set_has-erase j k (i ∷ ks) h = ground (arith, set_has-erase j k ks)

module _ {ℓ} {S : Type ℓ} where
  -- The slots that a call is to run: those of `list` and `added` that are not marked.
  unfoldable pub live : Impl S → List (SlotInfo S)
  live st = without_all st.removed (st.list ++ st.added)

  unfoldable pub ids : List (SlotInfo S) → List ℕ
  ids [] = []
  ids (x ∷ xs) = x.id ∷ ids xs

  unfoldable pub unexpired : Traits S → List (SlotInfo S) → List (SlotInfo S)
  unexpired t [] = []
  unexpired t (x ∷ xs) = if t.expired x.slot then unexpired t xs else x ∷ unexpired t xs

  -- A mark for an id below the slots' changes nothing.
  without_all-erase :
      (k lo : ℕ) (ks : List ℕ) (xs : List (SlotInfo S))
      → Increasing lo xs
      → k < lo
      → without_all (set_erase k ks) xs ≡ without_all ks xs
  unfolding without_all
  without_all-erase k lo ks [] h lt = refl
  without_all-erase k lo ks (x ∷ xs) (h, hs) lt =
      let apart : (k == x.id) ≡ false = ground arith in
      rw (set_has-erase_ne x.id k ks apart, without_all-erase k (suc x.id) ks xs hs (omega arith))

  without_all-append :
      (ks : List ℕ) (xs ys : List (SlotInfo S))
      → without_all ks (xs ++ ys) ≡ without_all ks xs ++ without_all ks ys
  unfolding without_all
  without_all-append ks [] ys = refl
  without_all-append ks (x ∷ xs) ys = elim (Bool-cases (set_has x.id ks)) [
    | inl e ↦ rw e (without_all-append ks xs ys)
    | inr e ↦ rw e (ap (λ t. x ∷ t) (without_all-append ks xs ys))
  ]

  without_all-insert :
      (k : ℕ) (ks : List ℕ) (xs : List (SlotInfo S))
      → without_all (set_insert k ks) xs ≡ without k (without_all ks xs)
  unfolding without_all without
  without_all-insert k ks [] = refl
  without_all-insert k ks (x ∷ xs) = elim (Bool-cases (set_has x.id ks)) [
    | inl old ↦ rw (set_has-insert x.id k ks, old, ∨-true (k == x.id)) (without_all-insert k ks xs)
    | inr kept ↦ elim (Bool-cases (x.id == k)) [
      | inl e ↦
          let e' : (k == x.id) ≡ true = ground arith in
          rw (set_has-insert x.id k ks, kept, e, e', without) (without_all-insert k ks xs)
      | inr e ↦
          let e' : (k == x.id) ≡ false = ground arith in
          rw (set_has-insert x.id k ks, kept, e, e', without)
            (ap (λ t. x ∷ t) (without_all-insert k ks xs))
    ]
  ]
    where
      ∨-true : (a : Bool) → (a || true) ≡ true
      ∨-true true = refl
      ∨-true false = refl

  -- A slot that is taken out twice is taken out.
  without_all-without :
      (k : ℕ) (ks : List ℕ) (xs ys : List (SlotInfo S))
      → without k (without_all ks (xs ++ ys)) ≡ without k (without_all ks (xs ++ without k ys))
  unfolding without_all without
  without_all-without k ks [] [] = refl
  without_all-without k ks [] (y ∷ ys) = elim (Bool-cases (y.id == k)) [
    | inl e ↦ elim (Bool-cases (set_has y.id ks)) [
      | inl m ↦ rw (e, m, without) (without_all-without k ks [] ys)
      | inr m ↦ rw (e, m, without, e) (without_all-without k ks [] ys)
    ]
    | inr e ↦ elim (Bool-cases (set_has y.id ks)) [
      | inl m ↦ rw (e, without_all, m) (without_all-without k ks [] ys)
      | inr m ↦
          rw (e, without_all, m, without, e) (ap (λ t. y ∷ t) (without_all-without k ks [] ys))
    ]
  ]
  without_all-without k ks (x ∷ xs) ys = elim (Bool-cases (set_has x.id ks)) [
    | inl m ↦ rw m (without_all-without k ks xs ys)
    | inr m ↦ elim (Bool-cases (x.id == k)) [
      | inl e ↦ rw (m, e, without) (without_all-without k ks xs ys)
      | inr e ↦ rw (m, e, without) (ap (λ t. x ∷ t) (without_all-without k ks xs ys))
    ]
  ]

  walk-passive :
      (t : Traits S) (others : ℕ → List (Call S)) (lo : ℕ) (bs : List (SlotInfo S)) (st : Impl S)
      → ((s : S) → t.exec s ≡ [])
      → ((k : ℕ) → others k ≡ [])
      → Increasing lo bs
      → ((walk t others bs st).ran ≡ ids (without_all st.removed bs))
        × (((walk t others bs st).kept ≡ unexpired t (without_all st.removed bs))
            × (((walk t others bs st).state.added ≡ st.added)
                × ((walk t others bs st).state.id ≡ st.id)))
  unfolding walk without_all ids unexpired run_calls
  walk-passive t others lo [] st quiet alone h = (refl, (refl, (refl, refl)))
  walk-passive t others lo (b ∷ bs) st quiet alone (h, hs) =
      elim (Bool-cases (set_has b.id st.removed)) [
        | inl gone ↦
            let st1 : Impl S = record st { removed = set_erase b.id st.removed } in
            let (ran, (kept, more)) = walk-passive t others (suc b.id) bs st1 quiet alone hs in
            let same = without_all-erase b.id (suc b.id) st.removed bs hs (omega arith) in
            rw (gone, alone b.id, walk, run_calls) (rw same at ran, (rw same at kept, more))
        | inr here ↦
            let (ran, (kept, more)) = walk-passive t others (suc b.id) bs st quiet alone hs in
            rw (here, alone b.id, quiet b.slot, walk, run_calls, kept, ids, unexpired)
              (ap (λ r. b.id ∷ r) ran, (refl, more))
      ]

  -- The loop makes no mark of its own.
  walk-marks :
      (t : Traits S) (others : ℕ → List (Call S)) (j : ℕ) (bs : List (SlotInfo S)) (st : Impl S)
      → ((s : S) → t.exec s ≡ [])
      → ((k : ℕ) → others k ≡ [])
      → set_has j st.removed ≡ false
      → set_has j (walk t others bs st).state.removed ≡ false
  unfolding walk run_calls
  walk-marks t others j [] st quiet alone h = h
  walk-marks t others j (b ∷ bs) st quiet alone h = elim (Bool-cases (set_has b.id st.removed)) [
    | inl gone ↦
        let st1 : Impl S = record st { removed = set_erase b.id st.removed } in
        rw (gone, alone b.id, walk, run_calls)
          (walk-marks t others j bs st1 quiet alone (set_has-erase j b.id st.removed h))
    | inr here ↦
        rw (here, alone b.id, quiet b.slot, walk, run_calls)
          (walk-marks t others j bs st quiet alone h)
  ]

  -- Slots left after the marks `ks` stay when only marks among `ks` are left.
  without_all_again :
      (t : Traits S) (ks rest : List ℕ) (xs : List (SlotInfo S))
      → ((j : ℕ) → set_has j ks ≡ false → set_has j rest ≡ false)
      → without_all rest (unexpired t (without_all ks xs)) ≡ unexpired t (without_all ks xs)
  unfolding without_all unexpired
  without_all_again t ks rest [] h = refl
  without_all_again t ks rest (x ∷ xs) h = elim (Bool-cases (set_has x.id ks)) [
    | inl gone ↦ rw gone (without_all_again t ks rest xs h)
    | inr here ↦ elim (Bool-cases (t.expired x.slot)) [
      | inl old ↦ rw (here, old, unexpired) (without_all_again t ks rest xs h)
      | inr new ↦
          rw (here, new, unexpired, without_all, h x.id here)
            (ap (λ l. x ∷ l) (without_all_again t ks rest xs h))
    ]
  ]

  -- When the ids of the object are in order and neither a slot nor another thread uses it
  -- meanwhile, a call runs exactly the live slots, each once and in the order of their ids, and
  -- leaves those that have not expired; no mark is left.
  pub invoke-live :
      (t : Traits S) (others : ℕ → List (Call S)) (st : Impl S)
      → ((s : S) → t.exec s ≡ [])
      → ((k : ℕ) → others k ≡ [])
      → Inv st
      → ((invoke t others st).1 ≡ ids (live st))
        × (((invoke t others st).0.list ≡ unexpired t (live st))
            × (((invoke t others st).0.added ≡ []) × ((invoke t others st).0.removed ≡ [])))
  unfolding invoke live splice_added clear_removed
  invoke-live t others st quiet alone v =
      let spliced : Impl S = splice_added st in
      let pass : Pass S = walk t others spliced.list spliced in
      let o = walk-Ordered t others 0 spliced.list spliced (splice_added-Inv st v) in
      let kept_up : Increasing 0 pass.kept =
        Sub-Increasing 0 (Sub-take pass.kept pass.state.added) o.increasing in
      let (ran, (kept, (added, next))) =
        walk-passive t others 0 (st.list ++ st.added) (splice_added st) quiet alone v.increasing in
      let cleared : clear_merge pass.state.removed pass.kept ≡ unexpired t (live st) =
        clear_merge-without_all 0 pass.state.removed pass.kept o.ascending kept_up
        ∙ ap (without_all pass.state.removed) kept
        ∙ without_all_again t st.removed pass.state.removed (st.list ++ st.added)
            (λ j h. walk-marks t others j spliced.list spliced quiet alone h) in
      (ran, (cleared, (added, refl)))

  -- Where the ids are in order, `unsubscribe` takes the slot of that id, and no other, out of the
  -- live slots.
  pub unsubscribe-live :
      (k : ℕ) (st : Impl S) → Inv st → live (unsubscribe k st) ≡ without k (live st)
  unfolding live unsubscribe
  unsubscribe-live k st v =
      let added_up : Increasing 0 st.added =
        Sub-Increasing 0 (Sub-drop st.list st.added) v.increasing in
      rw (remove_by_index-without k 0 st.added added_up) (
        without_all-insert k st.removed (st.list ++ without k st.added)
        ∙ sym (without_all-without k st.removed st.list st.added))
