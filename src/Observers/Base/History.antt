-- ===== src/Observers/Base/History.antt =====
-- A slot that was disconnected never runs again, also when a slot does it in the middle of a call.
use dep_srpc.Base.{ℕ, ◌<◌, ◌≡◌, refl, arith, ==_self}
use dep_srpc.Base.{false, List, [], ◌∷◌}
use dep_srpc.Observers.Base.{
  Impl, Call, Traits, Pass, connect, unsubscribe, clear, set_has, splice_added, walk, invoke,
}
use dep_srpc.Observers.Base.{Op, subscribes, disconnects, calls, disconnects_all, step, run}
use dep_srpc.Observers.Base.Search.{Increasing, remove_by_index-without, set_has-insert}
use dep_srpc.Observers.Base.Order.{Sub-Increasing, Sub-drop}
use dep_srpc.Observers.Base.Invariant.{
  Inv, walk-Ordered, connect-Inv, unsubscribe-Inv, clear-Inv, invoke-Inv, splice_added-Inv,
}
use dep_srpc.Observers.Base.Dead.{
  set_has-append, has_id, has_id-without, Dead, connect-Dead, unsubscribe-Dead, walk-Dead,
  clear_removed-Dead, splice_added-Dead,
}

module _ {ℓ} {S : Type ℓ} where
  -- The id is given out and its slot is gone, or marked for removal.
  abbrev pub Gone : ℕ → Impl S → Type 0
  Gone k st = Dead k st.list st

  unsubscribe-Gone : (k : ℕ) (st : Impl S) → Inv st → k < st.id → Gone k (unsubscribe k st)
  unfolding unsubscribe
  unsubscribe-Gone k st v lt =
      let added_up : Increasing 0 st.added =
        Sub-Increasing 0 (Sub-drop st.list st.added) v.increasing in
      record {
        issued = lt;
        waiting =
            rw
              (
                remove_by_index-without k 0 st.added added_up,
                has_id-without k k st.added,
                ==_self k,
              )
              (ground arith);
        marked = ground (arith, set_has-insert k k st.removed, ==_self k);
      }

  invoke-Gone :
      (t : Traits S) (others : ℕ → List (Call S)) (k : ℕ) (st : Impl S)
      → Inv st
      → Gone k st
      → (set_has k (invoke t others st).1 ≡ false) × Gone k (invoke t others st).0
  unfolding invoke
  invoke-Gone t others k st v d =
      let spliced : Impl S = splice_added st in
      let pass : Pass S = walk t others spliced.list spliced in
      let walked =
        walk-Dead t others k 0 spliced.list spliced (splice_added-Inv st v)
          (splice_added-Dead k st d) in
      let o = walk-Ordered t others 0 spliced.list spliced (splice_added-Inv st v) in
      (
        walked.0,
        clear_removed-Dead k (record pass.state { list = pass.kept })
            (record {
              increasing = o.increasing;
              below = o.below;
              ascending = o.ascending;
              start = o.start;
            })
            (record {
              issued = walked.1.issued;
              waiting = walked.1.waiting;
              marked = walked.1.marked;
            }),
      )

  step-Inv : (t : Traits S) (op : Op S) (st : Impl S) → Inv st → Inv (step t op st).0
  unfolding step
  step-Inv t (subscribes s) st v = connect-Inv s st v
  step-Inv t (disconnects j) st v = unsubscribe-Inv j st v
  step-Inv t (calls others) st v = invoke-Inv t others st v
  step-Inv t disconnects_all st v = clear-Inv st v

  step-Gone :
      (t : Traits S) (k : ℕ) (op : Op S) (st : Impl S)
      → Inv st
      → Gone k st
      → (set_has k (step t op st).1 ≡ false) × Gone k (step t op st).0
  unfolding step connect unsubscribe clear set_has has_id
  step-Gone t k (subscribes s) st v d = (refl, connect-Dead k st.list s st d)
  step-Gone t k (disconnects j) st v d = (refl, unsubscribe-Dead k j 0 st.list st v d)
  step-Gone t k (calls others) st v d = invoke-Gone t others k st v d
  step-Gone t k disconnects_all st v d =
      (refl, record { issued = d.issued; waiting = refl; marked = refl })

  run-Gone :
      (t : Traits S) (k : ℕ) (ops : List (Op S)) (st : Impl S)
      → Inv st
      → Gone k st
      → set_has k (run t ops st).1 ≡ false
  unfolding run
  run-Gone t k [] st v d = unfold set_has in refl
  run-Gone t k (op ∷ ops) st v d =
      let (quiet, gone) = step-Gone t k op st v d in
      rw (set_has-append k (step t op st).1 (run t ops (step t op st).0).1, quiet)
        (run-Gone t k ops (step t op st).0 (step-Inv t op st v) gone)

  -- Every history of an object whose ids are in order, and whose next id is above them, keeps them
  -- so: slots that connect and disconnect while they run, calls, and the operations between them.
  pub run-Inv : (t : Traits S) (ops : List (Op S)) (st : Impl S) → Inv st → Inv (run t ops st).0
  unfolding run
  run-Inv t [] st v = v
  run-Inv t (op ∷ ops) st v = run-Inv t ops (step t op st).0 (step-Inv t op st v)

  pub unsubscribe_silences :
      (t : Traits S) (k : ℕ) (ops : List (Op S)) (st : Impl S)
      → Inv st
      → k < st.id
      → set_has k (run t ops (unsubscribe k st)).1 ≡ false
  unsubscribe_silences t k ops st v lt =
      run-Gone t k ops (unsubscribe k st) (unsubscribe-Inv k st v) (unsubscribe-Gone k st v lt)
