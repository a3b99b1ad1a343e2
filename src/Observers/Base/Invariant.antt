-- ===== src/Observers/Base/Invariant.antt =====
-- The invariant of the object, kept by every operation whatever the slots do while they run.
use dep_srpc.Base.{ℕ, suc, ◌≤◌, arith, append-nil}
use dep_srpc.Base.{Bool, true, false, if◌then◌else◌, Bool-cases, inl, inr, List, [], ◌∷◌, ◌++◌}
use dep_srpc.Observers.Base.{
  SlotInfo, Impl, Call, Traits, Pass, connect, unsubscribe, run_calls, new_impl, clear, set_has,
  set_erase, splice_added, clear_merge, clear_removed, walk, invoke,
}
use dep_srpc.Observers.Base.Search.{Increasing, Ascending, clear_merge-without_all}
use dep_srpc.Observers.Base.Order.{
  Ordered, Sub, Sub-append_right, Sub-take, Ordered-weaken, Ordered-tail, Ordered-cons,
  Sub-Increasing, Sub-IdsBelow, Sub-without_all, connect-Ordered, unsubscribe-Ordered,
  run_calls-Ordered,
}

Ascending-weaken : (lo lo' : ℕ) (ks : List ℕ) → Ascending lo ks → lo' ≤ lo → Ascending lo' ks
Ascending-weaken lo lo' [] h le = tt
Ascending-weaken lo lo' (k ∷ ks) (h, hs) le = (omega arith, hs)

set_erase-Ascending : (k lo : ℕ) (ks : List ℕ) → Ascending lo ks → Ascending lo (set_erase k ks)
unfolding set_erase
set_erase-Ascending k lo [] h = tt
set_erase-Ascending k lo (j ∷ ks) (h, hs) =
    ground (arith, Ascending-weaken (suc j) lo ks hs, set_erase-Ascending k (suc j) ks hs)

module _ {ℓ} {S : Type ℓ} where
  pub erase-Ordered :
      (lo : ℕ) (ctx : List (SlotInfo S)) (k : ℕ) (st : Impl S)
      → Ordered lo ctx st
      → Ordered lo ctx (record st { removed = set_erase k st.removed })
  erase-Ordered lo ctx k st o = record {
    increasing = o.increasing;
    below = o.below;
    ascending = set_erase-Ascending k 0 st.removed o.ascending;
    start = o.start;
  }

  -- The ids of `list` and then `added` increase and lie below the next id; `removed` is in order.
  abbrev pub Inv : Impl S → Type 0
  Inv st = Ordered 0 st.list st

  pub new_impl-Inv : Inv (new_impl {S = S})
  unfolding new_impl
  new_impl-Inv = record { increasing = tt; below = tt; ascending = tt; start = omega arith }

  pub connect-Inv : (s : S) (st : Impl S) → Inv st → Inv (connect s st)
  unfolding connect
  connect-Inv s st v = connect-Ordered 0 st.list s st v

  pub unsubscribe-Inv : (k : ℕ) (st : Impl S) → Inv st → Inv (unsubscribe k st)
  unfolding unsubscribe
  unsubscribe-Inv k st v = unsubscribe-Ordered 0 st.list k st v

  pub clear-Inv : (st : Impl S) → Inv st → Inv (clear st)
  unfolding clear
  clear-Inv st v = record { increasing = tt; below = tt; ascending = tt; start = omega arith }

  pub splice_added-Inv : (st : Impl S) → Inv st → Inv (splice_added st)
  unfolding splice_added
  splice_added-Inv st v = record {
    increasing = rw append-nil v.increasing;
    below = rw append-nil v.below;
    ascending = v.ascending;
    start = omega arith;
  }

  pub clear_removed-Inv : (st : Impl S) → Inv st → Inv (clear_removed st)
  unfolding clear_removed
  clear_removed-Inv st v =
      let list_up : Increasing 0 st.list =
        Sub-Increasing 0 (Sub-take st.list st.added) v.increasing in
      let less : Sub (st.list ++ st.added) (clear_merge st.removed st.list ++ st.added) =
        rw (clear_merge-without_all 0 st.removed st.list v.ascending list_up)
          (Sub-append_right st.added (Sub-without_all st.removed st.list)) in
      record {
        increasing = Sub-Increasing 0 less v.increasing;
        below = Sub-IdsBelow st.id less v.below;
        ascending = tt;
        start = omega arith;
      }

  -- The loop keeps the order of the slots that it has still to visit and of those that it keeps.
  pub walk-Ordered :
      (t : Traits S) (others : ℕ → List (Call S)) (lo : ℕ) (bs : List (SlotInfo S)) (st : Impl S)
      → Ordered lo bs st
      → Ordered lo (walk t others bs st).kept (walk t others bs st).state
  unfolding walk
  walk-Ordered t others lo [] st o = o
  walk-Ordered t others lo (b ∷ bs) st o = elim (Bool-cases (set_has b.id st.removed)) [
    | inl gone ↦
        let st1 : Impl S = record st { removed = set_erase b.id st.removed } in
        let o1 : Ordered (suc b.id) bs st1 =
          erase-Ordered (suc b.id) bs b.id st (Ordered-tail lo b bs st o) in
        rw (gone, walk)
          (Ordered-weaken (suc b.id) lo _ _
            (walk-Ordered t others (suc b.id) bs (run_calls (others b.id) st1)
              (run_calls-Ordered (suc b.id) bs (others b.id) st1 o1))
            (omega (arith, o.increasing.0)))
    | inr here ↦
        let cs : List (Call S) = others b.id ++ t.exec b.slot in
        let st1 : Impl S = run_calls cs st in
        let o1 : Ordered (suc b.id) bs st1 =
          Ordered-tail lo b bs st1 (run_calls-Ordered lo (b ∷ bs) cs st o) in
        rw (here, walk)
          (keep (t.expired b.slot) b (walk t others bs st1) (o.increasing.0)
            (walk-Ordered t others (suc b.id) bs st1 o1))
  ]
    where
      keep :
          (out : Bool) (b : SlotInfo S) (rest : Pass S)
          → lo ≤ b.id
          → Ordered (suc b.id) rest.kept rest.state
          → Ordered lo (if out then rest.kept else b ∷ rest.kept) rest.state
      keep true b rest le h = Ordered-weaken (suc b.id) lo rest.kept rest.state h (omega arith)
      keep false b rest le h = Ordered-cons lo b rest.kept rest.state h le

  -- A call of the object keeps its invariant, whatever its slots and other threads ask of it
  -- meanwhile.
  pub invoke-Inv :
      (t : Traits S) (others : ℕ → List (Call S)) (st : Impl S)
      → Inv st
      → Inv (invoke t others st).0
  unfolding invoke
  invoke-Inv t others st v =
      let spliced : Impl S = splice_added st in
      let o : Ordered 0 (walk t others spliced.list spliced).kept
          (walk t others spliced.list spliced).state =
        walk-Ordered t others 0 spliced.list spliced (splice_added-Inv st v) in
      let pass : Pass S = walk t others spliced.list spliced in
      clear_removed-Inv (record pass.state { list = pass.kept })
        (record {
          increasing = o.increasing;
          below = o.below;
          ascending = o.ascending;
          start = o.start;
        })
