-- ===== src/Acceptor/Udp/Map.antt =====
-- The map of the clients: one for each endpoint, each within its bounds.
use dep_srpc.Base.{
  ℕ, ◌+◌, ◌<◌, ◌≡◌, refl, ap, sym, ◌∙◌, arith, ◌⊎◌, Bool, true, false, ◌==◌, Bool-cases, inl, inr,
  Option, none, some, List, [], ◌∷◌,
}
use dep_srpc.Acceptor.Udp.Clients.{Client}
use dep_srpc.Acceptor.Udp.Clients.Order.{ClientOk}
use mathlib.Core.Path.{subst}
use dep_srpc.Acceptor.Udp.{lock, put, find, erase}

module _ {ℓ} {E : Type ℓ} (same : E → E → Bool) where
  -- No endpoint has a second client, the numbers are below the next one, and each client is within
  -- its bounds.
  abbrev pub Good : ℕ → List (E × Client) → Type 0
  Good n [] = Unit
  Good n ((ep, c) ∷ rest) = (find same ep rest ≡ none) × (c.number < n) × ClientOk c × Good n rest

  pub Good-weaken : (n : ℕ) (cs : List (E × Client)) → Good n cs → Good (n + 1) cs
  Good-weaken n [] h = tt
  Good-weaken n ((ep, c) ∷ rest) (new, below, ok, h) = (new, omega arith, ok, Good-weaken n rest h)

  none-some : (c : Client) → none ≡ some c → ⊥
  none-some c e = cc

  some-some : (d c : Client) → some d ≡ some c → d ≡ c
  some-some d c e = cc

  find_hit :
      (x to : E) (d : Client) (rest : List (E × Client))
      → same x to ≡ true
      → find same x ((to, d) ∷ rest) ≡ some d
  unfolding find
  find_hit x to d rest e = rw e refl

  find_miss :
      (x to : E) (d : Client) (rest : List (E × Client))
      → same x to ≡ false
      → find same x ((to, d) ∷ rest) ≡ find same x rest
  unfolding find
  find_miss x to d rest e = rw e refl

  some-none : (o : Option Client) (d : Client) → o ≡ some d → o ≡ none → ⊥
  some-none o d e f = cc

  find_nowhere :
      (x to : E) (d : Client) (rest : List (E × Client))
      → find same x ((to, d) ∷ rest) ≡ none
      → (same x to ≡ false) × (find same x rest ≡ none)
  find_nowhere x to d rest h = elim (Bool-cases (same x to)) [
    | inl e ↦ absurd (some-none (find same x ((to, d) ∷ rest)) d (find_hit x to d rest e) h)
    | inr e ↦ (e, sym (find_miss x to d rest e) ∙ h)
  ]

  pub find-Good :
      (n : ℕ) (ep : E) (cs : List (E × Client)) (c : Client)
      → Good n cs
      → find same ep cs ≡ some c
      → (c.number < n) × ClientOk c
  unfolding find
  find-Good n ep [] c h e = absurd (none-some c e)
  find-Good n ep ((to, d) ∷ rest) c (new, below, ok, h) e = elim (Bool-cases (same ep to)) [
    | inl hit ↦
        subst (λ k. (k.number < n) × ClientOk k)
          (some-some d c (sym (find_hit ep to d rest hit) ∙ e)) (below, ok)
    | inr miss ↦ find-Good n ep rest c h (sym (find_miss ep to d rest miss) ∙ e)
  ]

  lock_hit :
      (m : ℕ) (to : E) (d : Client) (rest : List (E × Client))
      → (d.number == m) ≡ true
      → lock m ((to, d) ∷ rest) ≡ some d
  unfolding lock
  lock_hit m to d rest e = rw e refl

  lock_miss :
      (m : ℕ) (to : E) (d : Client) (rest : List (E × Client))
      → (d.number == m) ≡ false
      → lock m ((to, d) ∷ rest) ≡ lock m rest
  unfolding lock
  lock_miss m to d rest e = rw e refl

  pub lock-Good :
      (n m : ℕ) (cs : List (E × Client)) (c : Client)
      → Good n cs
      → lock m cs ≡ some c
      → (c.number < n) × ClientOk c
  unfolding lock
  lock-Good n m [] c h e = absurd (none-some c e)
  lock-Good n m ((to, d) ∷ rest) c (new, below, ok, h) e = elim (Bool-cases (d.number == m)) [
    | inl hit ↦
        subst (λ k. (k.number < n) × ClientOk k)
          (some-some d c (sym (lock_hit m to d rest hit) ∙ e)) (below, ok)
    | inr miss ↦ lock-Good n m rest c h (sym (lock_miss m to d rest miss) ∙ e)
  ]

  put_cons :
      (m : ℕ) (new : Client) (to : E) (d : Client) (rest : List (E × Client))
      → (k : Client) × (put m new ((to, d) ∷ rest) ≡ (to, k) ∷ put m new rest)
        × ((k ≡ new) ⊎ (k ≡ d))
  unfolding put
  put_cons m new to d rest = elim (Bool-cases (d.number == m)) [
    | inl e ↦ rw e (new, refl, inl refl)
    | inr e ↦ rw e (d, refl, inr refl)
  ]

  find-put-none :
      (x : E) (m : ℕ) (new : Client) (cs : List (E × Client))
      → find same x cs ≡ none
      → find same x (put m new cs) ≡ none
  unfolding find put
  find-put-none x m new [] h = refl
  find-put-none x m new ((to, d) ∷ rest) h =
      let (miss, none_left) = find_nowhere x to d rest h in
      let (k, changed, which) = put_cons m new to d rest in
      ap (λ l. find same x l) changed
      ∙ find_miss x to k (put m new rest) miss
      ∙ find-put-none x m new rest none_left

  pub put-Good :
      (n m : ℕ) (new : Client) (cs : List (E × Client))
      → (new.number < n) × ClientOk new
      → Good n cs
      → Good n (put m new cs)
  unfolding put
  put-Good n m new [] ok h = tt
  put-Good n m new ((to, d) ∷ rest) ok (first, below, d_ok, h) =
      let (k, changed, which) = put_cons m new to d rest in
      let k_ok : (k.number < n) × ClientOk k = elim which [
        | inl e ↦ subst (λ c. (c.number < n) × ClientOk c) (sym e) ok
        | inr e ↦ subst (λ c. (c.number < n) × ClientOk c) (sym e) (below, d_ok)
      ] in
      subst (λ l. Good n l) (sym changed)
        (find-put-none to m new rest first, k_ok.0, k_ok.1, put-Good n m new rest ok h)

  find-erase-none :
      (x ep : E) (cs : List (E × Client))
      → find same x cs ≡ none
      → find same x (erase same ep cs) ≡ none
  unfolding find erase
  find-erase-none x ep [] h = refl
  find-erase-none x ep ((to, d) ∷ rest) h =
      let (miss, none_left) = find_nowhere x to d rest h in
      elim (Bool-cases (same ep to)) [
        | inl hit ↦ rw hit none_left
        | inr other ↦
            rw other
              (find_miss x to d (erase same ep rest) miss ∙ find-erase-none x ep rest none_left)
      ]

  pub erase-Good : (n : ℕ) (ep : E) (cs : List (E × Client)) → Good n cs → Good n (erase same ep cs)
  unfolding erase
  erase-Good n ep [] h = tt
  erase-Good n ep ((to, d) ∷ rest) (first, below, ok, h) = elim (Bool-cases (same ep to)) [
    | inl hit ↦ rw hit h
    | inr other ↦ rw other (find-erase-none to ep rest first, below, ok, erase-Good n ep rest h)
  ]
