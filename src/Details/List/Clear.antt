-- ===== src/Details/List/Clear.antt =====
-- Deleting the nodes of the linked list.
use dep_srpc.Base.{
  ℕ, zero, suc, ◌+◌, ◌<◌, ◌≡◌, refl, ap, ◌∙◌, arith, true, false, Bool-cases, ==_iff, inl, inr,
  none, some,
}
use dep_srpc.Base.{[], ◌∷◌, length}
use dep_srpc.Details.List.{Memory, Handle, write, clear_loop, clear}
use dep_srpc.Details.List.Links.{
  Cells, head_or, has, Links, Apart, write_same, write_other, Links-write,
}
use dep_srpc.Details.List.Rep.{Rep}

module _ {ℓ} {A : Type ℓ} where
  clear_loop-Links :
      (fuel : ℕ) (m : Memory A) (before : ℕ) (xs : Cells A)
      → Links m before xs 0
      → Apart xs
      → length xs < fuel
      → (m' : Memory A) × (clear_loop fuel (head_or 0 xs) m ≡ some m')
        × ((a : ℕ) → has a xs ≡ true → m' a ≡ none)
        × ((a : ℕ) → has a xs ≡ false → m' a ≡ m a)
  unfolding clear_loop
  clear_loop-Links zero m before xs h apart lt = absurd (omega arith)
  clear_loop-Links (suc fuel) m before [] h apart lt = (m, refl, λ a e. absurd (cc e), λ a e. refl)
  clear_loop-Links (suc fuel) m before ((p, v) ∷ xs) (h, hs) (out, (nn, apart)) lt =
      let (m', e, freed, spared) =
        clear_loop-Links fuel (write m p none) p xs (Links-write m p none p xs 0 out hs) apart
          (omega arith) in
      (
        m',
        rw (nn, clear_loop, h) e,
        λ a i. elim (Bool-cases (has a xs)) [
          | inl later ↦ freed a later
          | inr not_later ↦
              let same : p ≡ a = (==_iff p a).0 (ground arith) in
              spared a not_later ∙ rw (← same) (write_same m p none)
        ],
        λ a o. spared a (ground arith) ∙ write_other m p a none (ground arith),
      )

  -- `clear` deletes every node of the list and no other memory, within one round more than there
  -- are nodes, and the list is empty; but `size_` stays what it was.
  pub clear-Rep :
      (m : Memory A) (l : Handle) (xs : Cells A)
      → Rep m l xs
      → (m' : Memory A) × (clear (length xs + 1) m l
          ≡ some (m', record l { front_ = 0; back_ = 0 }))
        × ((a : ℕ) → has a xs ≡ true → m' a ≡ none)
        × ((a : ℕ) → has a xs ≡ false → m' a ≡ m a)
  unfolding clear
  clear-Rep m l xs rep =
      let (m', e, freed, spared) =
        clear_loop-Links (length xs + 1) m 0 xs rep.links rep.apart (omega arith) in
      let e' : clear_loop (length xs + 1) l.front_ m ≡ some m' =
        ap (λ f. clear_loop (length xs + 1) f m) rep.front ∙ e in
      (m', rw (e', clear) refl, freed, spared)
