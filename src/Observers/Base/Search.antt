-- ===== src/Observers/Base/Search.antt =====
-- The searches of base.h against plain filters, on lists whose ids increase.
use dep_srpc.Base.{ℕ, suc, ◌-◌, ◌≤◌, ◌<◌, ◌≡◌, refl, ap, sym, ◌∙◌, arith}
use native.Mathlib.Nat.{le_refl}
use dep_srpc.Base.{
  true, false, ◌||◌, ltb, ◌==◌, if◌then◌else◌, Bool-cases, inl, inr, ltb→lt, ==_iff,
}
use dep_srpc.Base.{List, [], ◌∷◌}
use dep_srpc.Observers.Base.{
  SlotInfo, erase_forward, erase_backward, last_id, remove_by_index, clear_merge, set_has,
  set_insert,
}

-- The set's elements increase strictly, from `lo` on.
abbrev pub Ascending : ℕ → List ℕ → Type 0
Ascending lo [] = Unit
Ascending lo (k ∷ ks) = (lo ≤ k) × Ascending (suc k) ks

pub set_has_below : (k lo : ℕ) (ks : List ℕ) → Ascending lo ks → k < lo → set_has k ks ≡ false
unfolding set_has
set_has_below k lo [] h lt = refl
set_has_below k lo (j ∷ ks) (h, hs) lt = ground (arith, set_has_below k (suc j) ks hs)

pub set_has-insert :
    (k j : ℕ) (ks : List ℕ) → set_has k (set_insert j ks) ≡ (j == k || set_has k ks)
unfolding set_has set_insert
set_has-insert k j [] = refl
set_has-insert k j (i ∷ ks) = ground (arith, set_has-insert k j ks)

pub set_insert-Ascending :
    (j lo : ℕ) (ks : List ℕ) → Ascending lo ks → lo ≤ j → Ascending lo (set_insert j ks)
unfolding set_insert
set_insert-Ascending j lo [] h le = (le, tt)
set_insert-Ascending j lo (i ∷ ks) (h, hs) le = ground (arith, set_insert-Ascending j (suc i) ks hs)

set_has_head : (b k : ℕ) (bs : List ℕ) → (k == b) ≡ true → set_has k (b ∷ bs) ≡ true
unfolding set_has
set_has_head b k bs e = ground arith

module _ {ℓ} {S : Type ℓ} where
  -- The ids increase strictly, from `lo` on.
  abbrev pub Increasing : ℕ → List (SlotInfo S) → Type 0
  Increasing lo [] = Unit
  Increasing lo (x ∷ xs) = (lo ≤ x.id) × Increasing (suc x.id) xs

  -- All slots but `id`.
  unfoldable pub without : ℕ → List (SlotInfo S) → List (SlotInfo S)
  without id [] = []
  without id (x ∷ xs) = if x.id == id then without id xs else x ∷ without id xs

  pub without_above :
      (id lo : ℕ) (xs : List (SlotInfo S)) → Increasing lo xs → id < lo → without id xs ≡ xs
  unfolding without
  without_above id lo [] h lt = refl
  without_above id lo (x ∷ xs) (h, hs) lt = ground (arith, without_above id (suc x.id) xs hs)

  erase_forward-without :
      (id lo : ℕ) (xs : List (SlotInfo S)) → Increasing lo xs → erase_forward id xs ≡ without id xs
  unfolding erase_forward without
  erase_forward-without id lo [] h = refl
  erase_forward-without id lo (x ∷ xs) (h, hs) =
      ground (arith, erase_forward-without id (suc x.id) xs hs, without_above id (suc x.id) xs hs)

  -- The backward walk stops at an id that is `id` or less, if there is one.
  erase_backward_stopped :
      (id lo : ℕ) (xs : List (SlotInfo S))
      → Increasing lo xs
      → (erase_backward id xs).1 ≡ true
      → lo ≤ id
  unfolding erase_backward
  erase_backward_stopped id lo [] h e = cc
  erase_backward_stopped id lo (x ∷ xs) (h, hs) e =
      ground (arith, erase_backward_stopped id (suc x.id) xs hs)

  erase_backward-without :
      (id lo : ℕ) (xs : List (SlotInfo S))
      → Increasing lo xs
      → (erase_backward id xs).0 ≡ without id xs
  unfolding erase_backward without
  erase_backward-without id lo [] h = refl
  erase_backward-without id lo (x ∷ xs) (h, hs) = ground (
    arith,
    erase_backward_stopped id (suc x.id) xs hs,
    erase_backward-without id (suc x.id) xs hs,
  )

  id-le-last_id :
      (x : SlotInfo S) (xs : List (SlotInfo S)) → Increasing (suc x.id) xs → x.id ≤ last_id x xs
  unfolding last_id
  id-le-last_id x [] h = omega arith
  id-le-last_id x (y ∷ ys) (h, hs) = omega (arith, id-le-last_id y ys hs)

  without_beyond :
      (id : ℕ) (x : SlotInfo S) (xs : List (SlotInfo S))
      → Increasing (suc x.id) xs
      → last_id x xs < id
      → without id (x ∷ xs) ≡ x ∷ xs
  unfolding last_id without
  without_beyond id x [] h lt = ground arith
  without_beyond id x (y ∷ ys) (h, hs) lt =
      ground (arith, without_beyond id y ys hs lt, id-le-last_id y ys hs)

  outside :
      (id : ℕ) (x : SlotInfo S) (xs : List (SlotInfo S))
      → Increasing (suc x.id) xs
      → (ltb id x.id || ltb (last_id x xs) id) ≡ true
      → without id (x ∷ xs) ≡ x ∷ xs
  outside id x xs hs out = elim (Bool-cases (ltb id x.id)) [
    | inl e ↦ without_above id x.id (x ∷ xs) (le_refl x.id, hs) (ltb→lt id x.id e)
    | inr e ↦ without_beyond id x xs hs (ltb→lt (last_id x xs) id (rw e at out))
  ]

  -- Where the ids increase, the search from the nearer end removes the slot of that id and no
  -- other.
  pub remove_by_index-without :
      (id lo : ℕ) (xs : List (SlotInfo S))
      → Increasing lo xs
      → remove_by_index xs id ≡ without id xs
  unfolding remove_by_index
  remove_by_index-without id lo [] h = unfold without in refl
  remove_by_index-without id lo (x ∷ xs) (h, hs) =
      elim (Bool-cases (ltb id x.id || ltb (last_id x xs) id)) [
        | inl out ↦ rw out (sym (outside id x xs hs out))
        | inr in_range ↦ elim (Bool-cases (ltb (id - x.id) (last_id x xs - id))) [
          | inl near ↦
              rw (in_range, near) (erase_forward-without id x.id (x ∷ xs) (le_refl x.id, hs))
          | inr far ↦
              rw (in_range, far) (erase_backward-without id x.id (x ∷ xs) (le_refl x.id, hs))
        ]
      ]

  -- All slots but those whose id is in the set.
  unfoldable pub without_all : List ℕ → List (SlotInfo S) → List (SlotInfo S)
  without_all ks [] = []
  without_all ks (x ∷ xs) = if set_has x.id ks then without_all ks xs else x ∷ without_all ks xs

  without_all-nil : (xs : List (SlotInfo S)) → without_all [] xs ≡ xs
  unfolding without_all set_has
  without_all-nil [] = refl
  without_all-nil (x ∷ xs) = ap (λ t. x ∷ t) (without_all-nil xs)

  without_all_drop :
      (b lo : ℕ) (bs : List ℕ) (xs : List (SlotInfo S))
      → Increasing lo xs
      → b < lo
      → without_all (b ∷ bs) xs ≡ without_all bs xs
  unfolding without_all set_has
  without_all_drop b lo bs [] h lt = refl
  without_all_drop b lo bs (x ∷ xs) (h, hs) lt =
      let apart : (b == x.id) ≡ false = ground arith in
      rw (apart, without_all_drop b (suc x.id) bs xs hs (omega arith))

  pub without_all_keep :
      (ks : List ℕ) (x : SlotInfo S) (xs : List (SlotInfo S))
      → set_has x.id ks ≡ false
      → without_all ks (x ∷ xs) ≡ x ∷ without_all ks xs
  unfolding without_all
  without_all_keep ks x xs e = rw e

  pub without_all_skip :
      (ks : List ℕ) (x : SlotInfo S) (xs : List (SlotInfo S))
      → set_has x.id ks ≡ true
      → without_all ks (x ∷ xs) ≡ without_all ks xs
  unfolding without_all
  without_all_skip ks x xs e = rw e

  -- The two iterators of `clear_removed` meet every slot to be removed.
  pub clear_merge-without_all :
      (lo : ℕ) (bs : List ℕ) (xs : List (SlotInfo S))
      → Ascending lo bs
      → Increasing lo xs
      → clear_merge bs xs ≡ without_all bs xs
  unfolding clear_merge
  clear_merge-without_all lo [] xs hb hx = sym (without_all-nil xs)
  clear_merge-without_all lo (b ∷ bs) [] hb hx = unfold without_all in refl
  clear_merge-without_all lo (b ∷ bs) (x ∷ xs) (hb, hbs) (hx, hxs) =
      elim (Bool-cases (ltb x.id b)) [
        | inl less ↦
            let under : suc x.id ≤ b = ltb→lt x.id b less in
            rw (less, clear_merge)
              (ap (λ t. x ∷ t) (clear_merge-without_all (suc x.id) (b ∷ bs) xs (under, hbs) hxs)
                ∙ sym (
                    without_all_keep (b ∷ bs) x xs
                      (set_has_below x.id b (b ∷ bs) (le_refl b, hbs) under)))
        | inr more ↦ elim (Bool-cases (x.id == b)) [
          | inl same ↦
              let e : x.id ≡ b = (==_iff x.id b).0 same in
              let above : Increasing (suc b) xs = rw (← e) hxs in
              rw (more, same, clear_merge)
                (clear_merge-without_all (suc b) bs xs hbs above
                  ∙ sym (
                      without_all_skip (b ∷ bs) x xs (set_has_head b x.id bs same)
                      ∙ without_all_drop b (suc b) bs xs above (omega arith)))
          | inr apart ↦
              let above : suc b ≤ x.id = ground arith in
              rw (more, apart, clear_merge)
                (clear_merge-without_all (suc b) bs (x ∷ xs) hbs (above, hxs)
                  ∙ sym (without_all_drop b (suc b) bs (x ∷ xs) (above, hxs) (omega arith)))
        ]
      ]
