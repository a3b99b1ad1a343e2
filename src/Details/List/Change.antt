-- ===== src/Details/List/Change.antt =====
-- The stores that redirect the ends of a chain.
use dep_srpc.Base.{ℕ, ◌≡◌, refl, ◌∙◌, arith, true, false, ◌==◌, ==_iff, ==_self, Option, some}
use dep_srpc.Base.{[], ◌∷◌}
use dep_srpc.Details.List.{Node, Memory, write, set_next, set_prev, set_next_if, set_prev_if}
use dep_srpc.Details.List.Links.{
  Cells, head_or, last_or, has, Links, Apart, write_same, write_other,
}

module _ {ℓ} {A : Type ℓ} where
  -- A chain survives any change that spares its nodes.
  pub Links-frame :
      (m m' : Memory A) (before : ℕ) (xs : Cells A) (after : ℕ)
      → ((q : ℕ) → has q xs ≡ true → m' q ≡ m q)
      → Links m before xs after
      → Links m' before xs after
  Links-frame m m' before [] after same h = tt
  Links-frame m m' before ((p, v) ∷ xs) after same (h, hs) = (
    same p (ground (arith, ==_self p)) ∙ h,
    Links-frame m m' p xs after (λ q e. same q (ground arith)) hs,
  )

  -- The outcome of a store that makes the chain `xs` run from `before` to `after`.
  pub record Stored (m : Memory A) (before : ℕ) (xs : Cells A) (after : ℕ) (r : Option (Memory A))
      : Type ℓ where
    pub memory : Memory A
    pub result : r ≡ some memory
    pub links : Links memory before xs after
    pub spared : (q : ℕ) → has q xs ≡ false → memory q ≡ m q

  pub set_next-Stored :
      (m : Memory A) (before p : ℕ) (v : A) (xs : Cells A) (after to : ℕ)
      → Apart ((p, v) ∷ xs)
      → Links m before ((p, v) ∷ xs) after
      → Stored m before ((p, v) ∷ xs) to (set_next (last_or p xs) to m)
  unfolding set_next
  set_next-Stored m before p v [] after to apart (h, hs) =
      let n : Node A = record { prev_ = before; next_ = to; data_ = v } in
      record {
        memory = write m p (some n);
        result = rw (h, set_next) refl;
        links = (write_same m p (some n), tt);
        spared = λ q e. write_other m p q (some n) (ground arith);
      }
  set_next-Stored m before p v ((q, w) ∷ xs) after to (out, (nn, apart)) (h, hs) =
      let rest = set_next-Stored m p q w xs after to apart hs in
      record {
        memory = rest.memory;
        result = rest.result;
        links = (rest.spared p out ∙ h, rest.links);
        spared = λ r e. rest.spared r (ground arith);
      }

  pub set_prev-Stored :
      (m : Memory A) (before p : ℕ) (v : A) (xs : Cells A) (after to : ℕ)
      → Apart ((p, v) ∷ xs)
      → Links m before ((p, v) ∷ xs) after
      → Stored m to ((p, v) ∷ xs) after (set_prev p to m)
  unfolding set_prev
  set_prev-Stored m before p v xs after to (out, (nn, apart)) (h, hs) =
      let n : Node A = record { prev_ = to; next_ = head_or after xs; data_ = v } in
      record {
        memory = write m p (some n);
        result = rw (h, set_prev) refl;
        links = (
          write_same m p (some n),
          Links-frame m (write m p (some n)) p xs after
              (λ q e. write_other m p q (some n) (other p q xs out e)) hs,
        );
        spared = λ q e. write_other m p q (some n) (ground arith);
      }
    where
      other : (p q : ℕ) (xs : Cells A) → has p xs ≡ false → has q xs ≡ true → (p == q) ≡ false
      other p q xs out e = ground (arith, ==_iff p q)

  pub last_or-ne :
      (p : ℕ) (v : A) (xs : Cells A) → Apart ((p, v) ∷ xs) → (last_or p xs == 0) ≡ false
  last_or-ne p v [] (out, (nn, apart)) = nn
  last_or-ne p v ((q, w) ∷ xs) (out, (nn, apart)) = last_or-ne q w xs apart

  pub set_next_if-Stored :
      (m : Memory A) (xs : Cells A) (after to : ℕ)
      → Apart xs
      → Links m 0 xs after
      → Stored m 0 xs to (set_next_if (last_or 0 xs) to m)
  unfolding set_next_if
  set_next_if-Stored m [] after to apart h = record {
    memory = m;
    result = refl;
    links = tt;
    spared = λ q e. refl;
  }
  set_next_if-Stored m ((p, v) ∷ xs) after to apart h =
      rw (last_or-ne p v xs apart) (set_next-Stored m 0 p v xs after to apart h)

  pub set_prev_if-Stored :
      (m : Memory A) (before : ℕ) (ys : Cells A) (to : ℕ)
      → Apart ys
      → Links m before ys 0
      → Stored m to ys 0 (set_prev_if (head_or 0 ys) to m)
  unfolding set_prev_if
  set_prev_if-Stored m before [] to apart h = record {
    memory = m;
    result = refl;
    links = tt;
    spared = λ q e. refl;
  }
  set_prev_if-Stored m before ((p, v) ∷ xs) to (out, (nn, apart)) h =
      rw nn (set_prev-Stored m before p v xs 0 to (out, (nn, apart)) h)
