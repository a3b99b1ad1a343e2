-- ===== src/Observers/Base/Order.antt =====
-- Ids stay in increasing order: the lists' order under the operations of base.h.
use dep_srpc.Base.{ℕ, suc, ◌+◌, ◌≤◌, ◌<◌, ◌≡◌, refl, arith, append_assoc}
use dep_srpc.Base.{◌==◌, Bool-cases, inl, inr, List, [], ◌∷◌, ◌++◌}
use dep_srpc.Observers.Base.{
  SlotInfo, Impl, Call, connects, unsubscribes, connect, unsubscribe, run_calls, set_has,
  remove_by_index,
}
use dep_srpc.Observers.Base.Search.{
  Increasing, Ascending, without, without_all, remove_by_index-without, set_insert-Ascending,
}

module _ {ℓ} {S : Type ℓ} where
  -- Every id is below `hi`.
  abbrev pub IdsBelow : ℕ → List (SlotInfo S) → Type 0
  IdsBelow hi [] = Unit
  IdsBelow hi (x ∷ xs) = (x.id < hi) × IdsBelow hi xs

  -- The second list is the first one without some of its slots.
  pub data Sub : List (SlotInfo S) → List (SlotInfo S) → Type ℓ where
    none_left : Sub [] []
    keeps : {x : SlotInfo S} {xs ys : List (SlotInfo S)} → Sub xs ys → Sub (x ∷ xs) (x ∷ ys)
    drops : {x : SlotInfo S} {xs ys : List (SlotInfo S)} → Sub xs ys → Sub (x ∷ xs) ys

  Increasing-weaken :
      (lo lo' : ℕ) (xs : List (SlotInfo S)) → Increasing lo xs → lo' ≤ lo → Increasing lo' xs
  Increasing-weaken lo lo' [] h le = tt
  Increasing-weaken lo lo' (x ∷ xs) (h, hs) le = (omega arith, hs)

  pub Sub-Increasing :
      {xs ys : List (SlotInfo S)} (lo : ℕ) → Sub xs ys → Increasing lo xs → Increasing lo ys
  Sub-Increasing lo none_left h = tt
  Sub-Increasing lo (keeps {x} s) (h, hs) = (h, Sub-Increasing (suc x.id) s hs)
  Sub-Increasing lo (drops {x} {ys} s) (h, hs) =
      Increasing-weaken (suc x.id) lo ys (Sub-Increasing (suc x.id) s hs) (omega arith)

  pub Sub-IdsBelow :
      {xs ys : List (SlotInfo S)} (hi : ℕ) → Sub xs ys → IdsBelow hi xs → IdsBelow hi ys
  Sub-IdsBelow hi none_left h = tt
  Sub-IdsBelow hi (keeps s) (h, hs) = (h, Sub-IdsBelow hi s hs)
  Sub-IdsBelow hi (drops s) (h, hs) = Sub-IdsBelow hi s hs

  pub Sub-refl : (xs : List (SlotInfo S)) → Sub xs xs
  Sub-refl [] = none_left
  Sub-refl (x ∷ xs) = keeps (Sub-refl xs)

  pub Sub-append :
      (ctx : List (SlotInfo S)) {xs ys : List (SlotInfo S)}
      → Sub xs ys
      → Sub (ctx ++ xs) (ctx ++ ys)
  Sub-append [] s = s
  Sub-append (c ∷ ctx) s = keeps (Sub-append ctx s)

  pub Sub-drop : (ctx xs : List (SlotInfo S)) → Sub (ctx ++ xs) xs
  Sub-drop [] xs = Sub-refl xs
  Sub-drop (c ∷ ctx) xs = drops (Sub-drop ctx xs)

  pub Sub-append_right :
      {xs ys : List (SlotInfo S)} (zs : List (SlotInfo S)) → Sub xs ys → Sub (xs ++ zs) (ys ++ zs)
  Sub-append_right zs none_left = Sub-refl zs
  Sub-append_right zs (keeps s) = keeps (Sub-append_right zs s)
  Sub-append_right zs (drops s) = drops (Sub-append_right zs s)

  pub Sub-take : (xs ys : List (SlotInfo S)) → Sub (xs ++ ys) xs
  Sub-take [] [] = none_left
  Sub-take [] (y ∷ ys) = drops (Sub-take [] ys)
  Sub-take (x ∷ xs) ys = keeps (Sub-take xs ys)

  pub Sub-without : (id : ℕ) (xs : List (SlotInfo S)) → Sub xs (without id xs)
  unfolding without
  Sub-without id [] = none_left
  Sub-without id (x ∷ xs) = elim (Bool-cases (x.id == id)) [
    | inl e ↦ rw e (drops (Sub-without id xs))
    | inr e ↦ rw e (keeps (Sub-without id xs))
  ]

  pub Sub-without_all : (ks : List ℕ) (xs : List (SlotInfo S)) → Sub xs (without_all ks xs)
  unfolding without_all
  Sub-without_all ks [] = none_left
  Sub-without_all ks (x ∷ xs) = elim (Bool-cases (set_has x.id ks)) [
    | inl e ↦ rw e (drops (Sub-without_all ks xs))
    | inr e ↦ rw e (keeps (Sub-without_all ks xs))
  ]

  IdsBelow-weaken :
      (hi hi' : ℕ) (xs : List (SlotInfo S)) → IdsBelow hi xs → hi ≤ hi' → IdsBelow hi' xs
  IdsBelow-weaken hi hi' [] h le = tt
  IdsBelow-weaken hi hi' (x ∷ xs) (h, hs) le = (omega arith, IdsBelow-weaken hi hi' xs hs le)

  IdsBelow-snoc :
      (hi : ℕ) (xs : List (SlotInfo S)) (x : SlotInfo S)
      → IdsBelow hi xs
      → x.id ≡ hi
      → IdsBelow (hi + 1) (xs ++ x ∷ [])
  IdsBelow-snoc hi [] x h e = (omega arith, tt)
  IdsBelow-snoc hi (y ∷ ys) x (h, hs) e = (omega arith, IdsBelow-snoc hi ys x hs e)

  Increasing-snoc :
      (lo hi : ℕ) (xs : List (SlotInfo S)) (x : SlotInfo S)
      → Increasing lo xs
      → IdsBelow hi xs
      → lo ≤ hi
      → x.id ≡ hi
      → Increasing lo (xs ++ x ∷ [])
  Increasing-snoc lo hi [] x h b le e = (omega arith, tt)
  Increasing-snoc lo hi (y ∷ ys) x (h, hs) (b, bs) le e =
      (h, Increasing-snoc (suc y.id) hi ys x hs bs b e)

  -- The slots of `ctx` stand before those that wait in `added`, and all ids are used up.
  pub record Ordered (lo : ℕ) (ctx : List (SlotInfo S)) (st : Impl S) : Type 0 where
    pub increasing : Increasing lo (ctx ++ st.added)
    pub below : IdsBelow st.id (ctx ++ st.added)
    pub ascending : Ascending 0 st.removed
    pub start : lo ≤ st.id

  pub connect-Ordered :
      (lo : ℕ) (ctx : List (SlotInfo S)) (s : S) (st : Impl S)
      → Ordered lo ctx st
      → Ordered lo ctx (connect s st)
  unfolding connect
  connect-Ordered lo ctx s st o =
      let new : SlotInfo S = record { slot = s; id = st.id } in
      record {
        increasing =
            rw (← append_assoc ctx st.added (new ∷ []))
              (Increasing-snoc lo st.id (ctx ++ st.added) new o.increasing o.below o.start refl);
        below =
            rw (← append_assoc ctx st.added (new ∷ []))
              (IdsBelow-snoc st.id (ctx ++ st.added) new o.below refl);
        ascending = o.ascending;
        start = omega (arith, o.start);
      }

  pub unsubscribe-Ordered :
      (lo : ℕ) (ctx : List (SlotInfo S)) (k : ℕ) (st : Impl S)
      → Ordered lo ctx st
      → Ordered lo ctx (unsubscribe k st)
  unfolding unsubscribe
  unsubscribe-Ordered lo ctx k st o =
      let added_up : Increasing lo st.added =
        Sub-Increasing lo (Sub-drop ctx st.added) o.increasing in
      let less : Sub (ctx ++ st.added) (ctx ++ remove_by_index st.added k) =
        rw (remove_by_index-without k lo st.added added_up)
          (Sub-append ctx (Sub-without k st.added)) in
      record {
        increasing = Sub-Increasing lo less o.increasing;
        below = Sub-IdsBelow st.id less o.below;
        ascending = set_insert-Ascending k 0 st.removed o.ascending (omega arith);
        start = o.start;
      }

  pub run_calls-Ordered :
      (lo : ℕ) (ctx : List (SlotInfo S)) (cs : List (Call S)) (st : Impl S)
      → Ordered lo ctx st
      → Ordered lo ctx (run_calls cs st)
  unfolding run_calls
  run_calls-Ordered lo ctx [] st o = o
  run_calls-Ordered lo ctx (connects s ∷ cs) st o =
      run_calls-Ordered lo ctx cs (connect s st) (connect-Ordered lo ctx s st o)
  run_calls-Ordered lo ctx (unsubscribes k ∷ cs) st o =
      run_calls-Ordered lo ctx cs (unsubscribe k st) (unsubscribe-Ordered lo ctx k st o)

  pub Ordered-weaken :
      (lo lo' : ℕ) (ctx : List (SlotInfo S)) (st : Impl S)
      → Ordered lo ctx st
      → lo' ≤ lo
      → Ordered lo' ctx st
  Ordered-weaken lo lo' ctx st o le = record {
    increasing = Increasing-weaken lo lo' (ctx ++ st.added) o.increasing le;
    below = o.below;
    ascending = o.ascending;
    start = omega (arith, o.start);
  }

  pub Ordered-tail :
      (lo : ℕ) (b : SlotInfo S) (bs : List (SlotInfo S)) (st : Impl S)
      → Ordered lo (b ∷ bs) st
      → Ordered (suc b.id) bs st
  Ordered-tail lo b bs st o = record {
    increasing = o.increasing.1;
    below = o.below.1;
    ascending = o.ascending;
    start = o.below.0;
  }

  pub Ordered-cons :
      (lo : ℕ) (b : SlotInfo S) (bs : List (SlotInfo S)) (st : Impl S)
      → Ordered (suc b.id) bs st
      → lo ≤ b.id
      → Ordered lo (b ∷ bs) st
  Ordered-cons lo b bs st o le = record {
    increasing = (le, o.increasing);
    below = (o.start, o.below);
    ascending = o.ascending;
    start = omega (arith, o.start);
  }
