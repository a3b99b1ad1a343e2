-- ===== src/Observers/Base/Dead.antt =====
-- A slot that is gone, or marked for removal, does not run.
use dep_srpc.Base.{ℕ, suc, ◌<◌, ◌≡◌, refl, arith, ==_iff}
use dep_srpc.Base.{
  Bool, true, false, not, ◌&&◌, ◌||◌, ◌==◌, if◌then◌else◌, Bool-cases, inl, inr, List, [], ◌∷◌,
  ◌++◌,
}
use dep_srpc.Observers.Base.{
  SlotInfo, Impl, Call, connects, unsubscribes, Traits, Pass, connect, unsubscribe, run_calls,
  set_has, set_erase, splice_added, clear_removed, walk,
}
use dep_srpc.Observers.Base.Search.{
  Increasing, without, without_all, clear_merge-without_all, remove_by_index-without,
  set_has-insert,
}
use dep_srpc.Observers.Base.Order.{
  Ordered, Sub-Increasing, Sub-take, Sub-drop, Ordered-tail, run_calls-Ordered, connect-Ordered,
  unsubscribe-Ordered,
}
use dep_srpc.Observers.Base.Invariant.{Inv, erase-Ordered}

pub set_has-erase_ne :
    (k j : ℕ) (ks : List ℕ) → (j == k) ≡ false → set_has k (set_erase j ks) ≡ set_has k ks
unfolding set_has set_erase
set_has-erase_ne k j [] e = refl
set_has-erase_ne k j (i ∷ ks) e = ground (arith, set_has-erase_ne k j ks)

pub set_has-append :
    (k : ℕ) (xs ys : List ℕ) → set_has k (xs ++ ys) ≡ (set_has k xs || set_has k ys)
unfolding set_has
set_has-append k [] ys = refl
set_has-append k (x ∷ xs) ys = ground (arith, set_has-append k xs ys)

module _ {ℓ} {S : Type ℓ} where
  unfoldable pub has_id : ℕ → List (SlotInfo S) → Bool
  has_id k [] = false
  has_id k (x ∷ xs) = x.id == k || has_id k xs

  has_id-append :
      (k : ℕ) (xs ys : List (SlotInfo S)) → has_id k (xs ++ ys) ≡ (has_id k xs || has_id k ys)
  unfolding has_id
  has_id-append k [] ys = refl
  has_id-append k (x ∷ xs) ys = elim (Bool-cases (x.id == k)) [
    | inl e ↦ rw e
    | inr e ↦ rw e (has_id-append k xs ys)
  ]

  -- Ids from `lo` on leave those below it out.
  has_id_below :
      (k lo : ℕ) (xs : List (SlotInfo S)) → Increasing lo xs → k < lo → has_id k xs ≡ false
  unfolding has_id
  has_id_below k lo [] h lt = refl
  has_id_below k lo (x ∷ xs) (h, hs) lt =
      let apart : (x.id == k) ≡ false = ground arith in
      rw apart (has_id_below k (suc x.id) xs hs (omega arith))

  pub has_id-without :
      (k j : ℕ) (xs : List (SlotInfo S)) → has_id k (without j xs) ≡ (has_id k xs && not (j == k))
  unfolding has_id without
  has_id-without k j [] = refl
  has_id-without k j (x ∷ xs) = ground (arith, has_id-without k j xs)

  has_id-without_all :
      (k : ℕ) (ks : List ℕ) (xs : List (SlotInfo S))
      → has_id k (without_all ks xs) ≡ (has_id k xs && not (set_has k ks))
  unfolding has_id without_all
  has_id-without_all k ks [] = refl
  has_id-without_all k ks (x ∷ xs) = ground (arith, has_id-without_all k ks xs)

  -- `k` was given out and does not wait in `added`; a slot of `ctx` that has it is marked.
  pub record Dead (k : ℕ) (ctx : List (SlotInfo S)) (st : Impl S) : Type 0 where
    pub issued : k < st.id
    pub waiting : has_id k st.added ≡ false
    pub marked : (has_id k ctx && not (set_has k st.removed)) ≡ false

  new_id : (k : ℕ) (x : SlotInfo S) → k < x.id → has_id k (x ∷ []) ≡ false
  unfolding has_id
  new_id k x h = ground arith

  pub connect-Dead :
      (k : ℕ) (ctx : List (SlotInfo S)) (s : S) (st : Impl S)
      → Dead k ctx st
      → Dead k ctx (connect s st)
  unfolding connect
  connect-Dead k ctx s st d =
      let new : SlotInfo S = record { slot = s; id = st.id } in
      record {
        issued = omega (arith, d.issued);
        waiting = rw (has_id-append k st.added (new ∷ []), d.waiting) (new_id k new d.issued);
        marked = d.marked;
      }

  pub unsubscribe-Dead :
      (k j lo : ℕ) (ctx : List (SlotInfo S)) (st : Impl S)
      → Ordered lo ctx st
      → Dead k ctx st
      → Dead k ctx (unsubscribe j st)
  unfolding unsubscribe
  unsubscribe-Dead k j lo ctx st o d =
      let added_up : Increasing lo st.added =
        Sub-Increasing lo (Sub-drop ctx st.added) o.increasing in
      record {
        issued = d.issued;
        waiting =
            rw
              (
                remove_by_index-without j lo st.added added_up,
                has_id-without k j st.added,
                d.waiting,
              )
              refl;
        marked = ground (arith, set_has-insert k j st.removed, d.marked);
      }

  run_calls-Dead :
      (k lo : ℕ) (ctx : List (SlotInfo S)) (cs : List (Call S)) (st : Impl S)
      → Ordered lo ctx st
      → Dead k ctx st
      → Dead k ctx (run_calls cs st)
  unfolding run_calls
  run_calls-Dead k lo ctx [] st o d = d
  run_calls-Dead k lo ctx (connects s ∷ cs) st o d =
      run_calls-Dead k lo ctx cs (connect s st) (connect-Ordered lo ctx s st o)
        (connect-Dead k ctx s st d)
  run_calls-Dead k lo ctx (unsubscribes j ∷ cs) st o d =
      run_calls-Dead k lo ctx cs (unsubscribe j st) (unsubscribe-Ordered lo ctx j st o)
        (unsubscribe-Dead k j lo ctx st o d)

  skip-Dead :
      (k lo : ℕ) (b : SlotInfo S) (bs : List (SlotInfo S)) (st : Impl S)
      → Ordered lo (b ∷ bs) st
      → Dead k (b ∷ bs) st
      → Dead k bs (record st { removed = set_erase b.id st.removed })
  unfolding has_id
  skip-Dead k lo b bs st o d = elim (Bool-cases (b.id == k)) [
    | inl e ↦ record {
      issued = d.issued;
      waiting = d.waiting;
      marked =
          let bs_up : Increasing (suc b.id) bs =
            Sub-Increasing (suc b.id) (Sub-take bs st.added) o.increasing.1 in
          rw (has_id_below k (suc b.id) bs bs_up (ground arith));
    }
    | inr e ↦ record {
      issued = d.issued;
      waiting = d.waiting;
      marked = rw (set_has-erase_ne k b.id st.removed e) (rw (e, has_id) at d.marked);
    }
  ]

  Dead-tail :
      (k : ℕ) (b : SlotInfo S) (bs : List (SlotInfo S)) (st : Impl S)
      → (b.id == k) ≡ false
      → Dead k (b ∷ bs) st
      → Dead k bs st
  unfolding has_id
  Dead-tail k b bs st e d = record {
    issued = d.issued;
    waiting = d.waiting;
    marked = rw e at d.marked;
  }

  Dead-kept :
      (out : Bool) (k : ℕ) (b : SlotInfo S) (rest : Pass S)
      → (b.id == k) ≡ false
      → Dead k rest.kept rest.state
      → Dead k (if out then rest.kept else b ∷ rest.kept) rest.state
  unfolding has_id
  Dead-kept true k b rest e d = d
  Dead-kept false k b rest e d = record {
    issued = d.issued;
    waiting = d.waiting;
    marked = rw e d.marked;
  }

  not_marked :
      (k : ℕ) (b : SlotInfo S) (bs : List (SlotInfo S)) (st : Impl S)
      → Dead k (b ∷ bs) st
      → set_has b.id st.removed ≡ false
      → (b.id == k) ≡ false
  unfolding has_id
  not_marked k b bs st d here = elim (Bool-cases (b.id == k)) [
    | inl e ↦
        let same : b.id ≡ k = (==_iff b.id k).0 e in
        let clean : set_has k st.removed ≡ false = rw (← same) here in
        cc (rw (e, clean) at d.marked)
    | inr e ↦ e
  ]

  -- The loop does not run a slot that is marked, or that another slot marks before its turn.
  pub walk-Dead :
      (t : Traits S) (others : ℕ → List (Call S)) (k lo : ℕ) (bs : List (SlotInfo S)) (st : Impl S)
      → Ordered lo bs st
      → Dead k bs st
      → (set_has k (walk t others bs st).ran ≡ false)
        × Dead k (walk t others bs st).kept (walk t others bs st).state
  unfolding walk set_has
  walk-Dead t others k lo [] st o d = (refl, d)
  walk-Dead t others k lo (b ∷ bs) st o d = elim (Bool-cases (set_has b.id st.removed)) [
    | inl gone ↦
        let st1 : Impl S = record st { removed = set_erase b.id st.removed } in
        let o1 : Ordered (suc b.id) bs st1 =
          erase-Ordered (suc b.id) bs b.id st (Ordered-tail lo b bs st o) in
        let st2 : Impl S = run_calls (others b.id) st1 in
        let o2 : Ordered (suc b.id) bs st2 = run_calls-Ordered (suc b.id) bs (others b.id) st1 o1 in
        let d2 : Dead k bs st2 =
          run_calls-Dead k (suc b.id) bs (others b.id) st1 o1 (skip-Dead k lo b bs st o d) in
        rw (gone, walk) (walk-Dead t others k (suc b.id) bs st2 o2 d2)
    | inr here ↦
        let other : (b.id == k) ≡ false = not_marked k b bs st d here in
        let cs : List (Call S) = others b.id ++ t.exec b.slot in
        let st1 : Impl S = run_calls cs st in
        let o1 : Ordered lo (b ∷ bs) st1 = run_calls-Ordered lo (b ∷ bs) cs st o in
        let d1 : Dead k bs st1 =
          Dead-tail k b bs st1 other (run_calls-Dead k lo (b ∷ bs) cs st o d) in
        let ih = walk-Dead t others k (suc b.id) bs st1 (Ordered-tail lo b bs st1 o1) d1 in
        rw (here, other, walk)
          (ih.0, Dead-kept (t.expired b.slot) k b (walk t others bs st1) other ih.1)
  ]

  pub clear_removed-Dead :
      (k : ℕ) (st : Impl S)
      → Inv st
      → Dead k st.list st
      → Dead k (clear_removed st).list (clear_removed st)
  unfolding clear_removed
  clear_removed-Dead k st v d =
      let list_up : Increasing 0 st.list =
        Sub-Increasing 0 (Sub-take st.list st.added) v.increasing in
      record {
        issued = d.issued;
        waiting = d.waiting;
        marked =
            rw
              (
                clear_merge-without_all 0 st.removed st.list v.ascending list_up,
                has_id-without_all k st.removed st.list,
                d.marked,
              )
              refl;
      }

  pub splice_added-Dead :
      (k : ℕ) (st : Impl S) → Dead k st.list st → Dead k (splice_added st).list (splice_added st)
  unfolding splice_added has_id
  splice_added-Dead k st d = record {
    issued = d.issued;
    waiting = refl;
    marked = ground (arith, has_id-append k st.list st.added, d.waiting, d.marked);
  }
