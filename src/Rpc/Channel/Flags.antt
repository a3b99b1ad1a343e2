-- ===== src/Rpc/Channel/Flags.antt =====
-- A flag is what was done to it last.
use dep_srpc.Base.{
  ℕ, ◌^◌, ◌<◌, ◌≡◌, refl, ap, ◌∙◌, arith, ◌⊎◌, inl, inr, Bool, true, false, ◌==◌, Bool-cases,
  bit_and, List, [], ◌∷◌,
}
use dep_srpc.Base.Masks.{
  complement, bit_or-set, bit_or-apart, bit_and-complement, bit_and-complement_apart,
}
use dep_srpc.Rpc.Channel.{
  Channel, set_flags, check, set_flag, reset_flag, set_timeout, Op, sets_flags, sets_flag,
  resets_flag, sets_timeout, step, run,
}

-- Two flags of 32 bits are the same, or have no bit in common.
abbrev pub Apart : ℕ → ℕ → Type 0
Apart flag other = (other < 2 ^ 32) × ((other ≡ flag) ⊎ (bit_and other flag ≡ 0))

abbrev pub AllApart : ℕ → List Op → Type 0
AllApart flag [] = Unit
AllApart flag (sets_flags flags ∷ ops) = AllApart flag ops
AllApart flag (sets_flag other ∷ ops) = Apart flag other × AllApart flag ops
AllApart flag (resets_flag other ∷ ops) = Apart flag other × AllApart flag ops
AllApart flag (sets_timeout n ∷ ops) = AllApart flag ops

-- The reference: one Boolean for the flag.
unfoldable pub assigned : ℕ → List Op → Bool → Bool
assigned flag [] now = now
assigned flag (sets_flags flags ∷ ops) now = assigned flag ops (bit_and flags flag == flag)
assigned flag (sets_flag other ∷ ops) now = elim (other == flag) [
  | true ↦ assigned flag ops true
  | false ↦ assigned flag ops now
]
assigned flag (resets_flag other ∷ ops) now = elim (other == flag) [
  | true ↦ assigned flag ops false
  | false ↦ assigned flag ops now
]
assigned flag (sets_timeout n ∷ ops) now = assigned flag ops now

differ : (a b : ℕ) → 0 < b → a ≡ 0 → (a == b) ≡ false
differ a b h e = ground arith

module _ (flag : ℕ) (small : flag < 2 ^ 32) (some_bit : 0 < flag) where
  same_number : (other : ℕ) → (other == flag) ≡ true → other ≡ flag
  same_number other e = ground arith

  no_shared_bit : (other : ℕ) → Apart flag other → (other == flag) ≡ false → bit_and other flag ≡ 0
  no_shared_bit other (fits, inl e) h = ground arith
  no_shared_bit other (fits, inr e) h = e

  check-set_same : (c : Channel) → check flag (set_flag flag c) ≡ true
  unfolding check set_flag
  check-set_same c = rw (bit_or-set c.options flag small) (ground arith)

  check-set_apart :
      (other : ℕ) (c : Channel)
      → bit_and other flag ≡ 0
      → check flag (set_flag other c) ≡ check flag c
  unfolding check set_flag
  check-set_apart other c e = ap (λ t. t == flag) (bit_or-apart c.options other flag small e)

  check-reset_same : (c : Channel) → check flag (reset_flag flag c) ≡ false
  unfolding check reset_flag
  check-reset_same c =
      differ (bit_and (bit_and c.options (complement 32 flag)) flag) flag some_bit
        (bit_and-complement 32 c.options flag small)

  check-reset_apart :
      (other : ℕ) (c : Channel)
      → other < 2 ^ 32
      → bit_and other flag ≡ 0
      → check flag (reset_flag other c) ≡ check flag c
  unfolding check reset_flag
  check-reset_apart other c fits e =
      ap (λ t. t == flag) (bit_and-complement_apart 32 c.options other flag fits small e)

  -- A flag of 32 bits that is not 0: in every history that sets all flags at once, and sets and
  -- takes away single flags, this one and others that have no bit in common with it, the channel
  -- has the flag at the end exactly where the last of these that concerned it set it, and as before
  -- where none did.
  pub run-check :
      (ops : List Op) (c : Channel)
      → AllApart flag ops
      → check flag (run ops c) ≡ assigned flag ops (check flag c)
  unfolding run step assigned
  run-check [] c h = refl
  run-check (sets_flags flags ∷ ops) c h =
      run-check ops (set_flags flags c) h ∙ (unfold set_flags check in refl)
  run-check (sets_flag other ∷ ops) c (apart, h) =
      let ih = run-check ops (set_flag other c) h in
      elim (Bool-cases (other == flag)) [
        | inl e ↦
            rw (assigned, e)
              (ih
                ∙ ap (λ t. assigned flag ops t)
                    (ap (λ t. check flag (set_flag t c)) (same_number other e) ∙ check-set_same c))
        | inr e ↦
            rw (assigned, e)
              (ih
                ∙ ap (λ t. assigned flag ops t)
                    (check-set_apart other c (no_shared_bit other apart e)))
      ]
  run-check (resets_flag other ∷ ops) c (apart, h) =
      let ih = run-check ops (reset_flag other c) h in
      elim (Bool-cases (other == flag)) [
        | inl e ↦
            rw (assigned, e)
              (ih
                ∙ ap (λ t. assigned flag ops t)
                    (ap (λ t. check flag (reset_flag t c)) (same_number other e)
                      ∙ check-reset_same c))
        | inr e ↦
            rw (assigned, e)
              (ih
                ∙ ap (λ t. assigned flag ops t)
                    (check-reset_apart other c apart.0 (no_shared_bit other apart e)))
      ]
  run-check (sets_timeout n ∷ ops) c h =
      run-check ops (set_timeout n c) h ∙ (unfold set_timeout check in refl)
