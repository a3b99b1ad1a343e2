-- ===== src/Details/List/Links.antt =====
-- Doubly linked chains of nodes in memory, and what a store elsewhere leaves of them.
use dep_srpc.Base.{
  ℕ, ◌≡◌, refl, ◌∙◌, arith, Bool, true, false, ◌||◌, ◌==◌, Bool-cases, ==_iff, ==_self, inl, inr,
  Option, some,
}
use dep_srpc.Base.{List, [], ◌∷◌, ◌++◌}
use dep_srpc.Details.List.{Node, Memory, write}

-- A list with its nodes' addresses, from the front.
abbrev pub Cells {ℓ} : Type ℓ → Type ℓ
Cells A = List (ℕ × A)

module _ {ℓ} {A : Type ℓ} where
  abbrev pub head_or : ℕ → Cells A → ℕ
  head_or d [] = d
  head_or d ((p, v) ∷ xs) = p

  abbrev pub last_or : ℕ → Cells A → ℕ
  last_or d [] = d
  last_or d ((p, v) ∷ xs) = last_or p xs

  abbrev pub has : ℕ → Cells A → Bool
  has a [] = false
  has a ((p, v) ∷ xs) = p == a || has a xs

  -- From `before`, the nodes of the cells point forward and backward, and on to `after`.
  abbrev pub Links : Memory A → ℕ → Cells A → ℕ → Type ℓ
  Links m before [] after = Unit
  Links m before ((p, v) ∷ xs) after =
      (m p ≡ some (record { prev_ = before; next_ = head_or after xs; data_ = v }))
      × Links m p xs after

  -- No address twice, and none is NULL.
  abbrev pub Apart : Cells A → Type 0
  Apart [] = Unit
  Apart ((p, v) ∷ xs) = (has p xs ≡ false) × (((p == 0) ≡ false) × Apart xs)

  pub head_or-append : (d : ℕ) (xs ys : Cells A) → head_or d (xs ++ ys) ≡ head_or (head_or d ys) xs
  head_or-append d [] ys = refl
  head_or-append d ((p, v) ∷ xs) ys = refl

  pub last_or-append : (d : ℕ) (xs ys : Cells A) → last_or d (xs ++ ys) ≡ last_or (last_or d xs) ys
  last_or-append d [] ys = refl
  last_or-append d ((p, v) ∷ xs) ys = last_or-append p xs ys

  pub has-append : (a : ℕ) (xs ys : Cells A) → has a (xs ++ ys) ≡ (has a xs || has a ys)
  has-append a [] ys = refl
  has-append a ((p, v) ∷ xs) ys = elim (Bool-cases (p == a)) [
    | inl e ↦ rw e refl
    | inr e ↦ rw e (has-append a xs ys)
  ]

  pub write_same : (m : Memory A) (p : ℕ) (c : Option (Node A)) → write m p c p ≡ c
  unfolding write
  write_same m p c = rw (==_self p) refl

  pub write_other :
      (m : Memory A) (p q : ℕ) (c : Option (Node A)) → (p == q) ≡ false → write m p c q ≡ m q
  unfolding write
  write_other m p q c e = rw e refl

  -- A store to an address outside leaves the chain.
  pub Links-write :
      (m : Memory A) (a : ℕ) (c : Option (Node A)) (before : ℕ) (xs : Cells A) (after : ℕ)
      → has a xs ≡ false
      → Links m before xs after
      → Links (write m a c) before xs after
  Links-write m a c before [] after out h = tt
  Links-write m a c before ((p, v) ∷ xs) after out (h, hs) =
      let apart : (a == p) ≡ false = ground arith in
      let rest : has a xs ≡ false = ground arith in
      (write_other m a p c apart ∙ h, Links-write m a c p xs after rest hs)

  pub Links-append :
      (m : Memory A) (before : ℕ) (xs ys : Cells A) (after : ℕ)
      → Links m before xs (head_or after ys)
      → Links m (last_or before xs) ys after
      → Links m before (xs ++ ys) after
  Links-append m before [] ys after h k = k
  Links-append m before ((p, v) ∷ xs) ys after (h, hs) k =
      (rw (head_or-append after xs ys) h, Links-append m p xs ys after hs k)

  pub Links-split :
      (m : Memory A) (before : ℕ) (xs ys : Cells A) (after : ℕ)
      → Links m before (xs ++ ys) after
      → Links m before xs (head_or after ys) × Links m (last_or before xs) ys after
  Links-split m before [] ys after h = (tt, h)
  Links-split m before ((p, v) ∷ xs) ys after (h, hs) =
      let (front, back) = Links-split m p xs ys after hs in
      ((rw (head_or-append after xs ys) at h, front), back)

  pub Apart-append :
      (xs ys : Cells A)
      → Apart xs
      → Apart ys
      → ((a : ℕ) → has a xs ≡ true → has a ys ≡ false)
      → Apart (xs ++ ys)
  Apart-append [] ys h k apart = k
  Apart-append ((p, v) ∷ xs) ys (out, (nn, h)) k apart = (
    ground (arith, has-append p xs ys, apart p, ==_self p),
    (nn, Apart-append xs ys h k (λ a e. apart a (ground arith))),
  )

  pub Apart-split :
      (xs ys : Cells A)
      → Apart (xs ++ ys)
      → Apart xs × (Apart ys × ((a : ℕ) → has a xs ≡ true → has a ys ≡ false))
  Apart-split [] ys h = (tt, (h, λ a e. absurd (cc e)))
  Apart-split ((p, v) ∷ xs) ys (out, (nn, h)) =
      let (left, (right, apart)) = Apart-split xs ys h in
      (
        (ground (arith, has-append p xs ys), (nn, left)),
        (right, λ a e. ground (arith, has-append p xs ys, apart a, ==_iff p a)),
      )
