-- ===== src/Factory/Laws.antt =====
-- What a factory creates after any history.
use dep_srpc.Base.{
  ◌≡◌, refl, ap, sym, ◌∙◌, Bool, true, false, if◌then◌else◌, Bool-cases, inl, inr, Option, none,
  some, List, [], ◌∷◌,
}
use dep_srpc.Factory.{
  Factory, Op, assigns, erases, new_factory, call_found, find, put, remove, create, assign, erase,
  step, run,
}

-- What the test of keys must do: it tells equal keys.
pub record IsSame {ℓ} {K : Type ℓ} (same : K → K → Bool) : Type ℓ where
  pub same_self : (a : K) → same a a ≡ true
  pub equal_of_same : (a b : K) → same a b ≡ true → a ≡ b

if_true {ℓ} : {A : Type ℓ} (b : Bool) (x y : A) → b ≡ true → (if b then x else y) ≡ x
if_true b x y e = rw e refl

if_false {ℓ} : {A : Type ℓ} (b : Bool) (x y : A) → b ≡ false → (if b then x else y) ≡ y
if_false b x y e = rw e refl

module _ {ℓ} {K : Type ℓ} (same : K → K → Bool) (law : IsSame same) where
  also_same : (a b c : K) → same a b ≡ true → same a c ≡ same b c
  also_same a b c e = ap (λ t. same t c) (law.equal_of_same a b e)

module _ {ℓ} {K P : Type ℓ} (same : K → K → Bool) where
  -- The reference: the producer that the key has after a history, where it has `now` before it.
  unfoldable pub latest : K → List (Op K P) → Option P → Option P
  latest name [] now = now
  latest name (assigns key producer ∷ ops) now =
      latest name ops (if same name key then some producer else now)
  latest name (erases key ∷ ops) now = latest name ops (if same name key then none else now)

  module _ (law : IsSame same) where
    find-put :
        (name key : K) (new : P) (m : List (K × P))
        → find same name (put same key new m)
          ≡ (if same name key then some new else find same name m)
    unfolding find put
    find-put name key new [] = refl
    find-put name key new ((k, q) ∷ rest) = elim (Bool-cases (same key k)) [
      | inl e ↦
          let keys : same name k ≡ same name key =
            ap (λ t. same name t) (sym (law.equal_of_same key k e)) in
          rw (e, find, keys)
            (elim (Bool-cases (same name key)) [ inl f ↦ rw f refl | inr f ↦ rw f refl ])
      | inr e ↦ elim (Bool-cases (same name key)) [
        | inl f ↦
            let other : same name k ≡ false = also_same same law name key k f ∙ e in
            rw (e, find, other, f)
              (find-put name key new rest
                ∙ if_true (same name key) (some new) (find same name rest) f)
        | inr f ↦
            rw (e, find, f)
              (ap (λ t. if same name k then some q else t)
                (find-put name key new rest
                  ∙ if_false (same name key) (some new) (find same name rest) f))
      ]
    ]

    find-remove :
        (name key : K) (m : List (K × P))
        → find same name (remove same key m) ≡ (if same name key then none else find same name m)
    unfolding find remove
    find-remove name key [] = elim (Bool-cases (same name key)) [
      | inl e ↦ rw e refl
      | inr e ↦ rw e refl
    ]
    find-remove name key ((k, q) ∷ rest) = elim (Bool-cases (same key k)) [
      | inl e ↦
          let keys : same name k ≡ same name key =
            ap (λ t. same name t) (sym (law.equal_of_same key k e)) in
          rw (e, keys)
            (elim (Bool-cases (same name key)) [
              | inl f ↦
                  rw f (
                    find-remove name key rest
                    ∙ if_true (same name key) none (find same name rest) f)
              | inr f ↦ rw f (
                  find-remove name key rest ∙ if_false (same name key) none (find same name rest) f)
            ])
      | inr e ↦ elim (Bool-cases (same name key)) [
        | inl f ↦
            let other : same name k ≡ false = also_same same law name key k f ∙ e in
            rw (e, find, other, f)
              (find-remove name key rest ∙ if_true (same name key) none (find same name rest) f)
        | inr f ↦
            rw (e, find, f)
              (ap (λ t. if same name k then some q else t)
                (find-remove name key rest ∙ if_false (same name key) none (find same name rest) f))
      ]
    ]

    find-run :
        (name : K) (ops : List (Op K P)) (f : Factory K P)
        → find same name (run same ops f).map_ ≡ latest name ops (find same name f.map_)
    unfolding run step latest assign erase
    find-run name [] f = refl
    find-run name (assigns key producer ∷ ops) f =
        find-run name ops (assign same key producer f)
        ∙ ap (λ t. latest name ops t) (find-put name key producer f.map_)
    find-run name (erases key ∷ ops) f =
        find-run name ops (erase same key f)
        ∙ ap (λ t. latest name ops t) (find-remove name key f.map_)

    -- With a test that tells equal keys: after every history of a new factory, `create` gives
    -- what the producer makes that was assigned to the key last, and the default object where
    -- there was none or it was erased after that.
    pub create-latest :
        {O : Type ℓ} (produce : P → O) (object : O) (name : K) (ops : List (Op K P))
        → create same produce object name (run same ops new_factory)
          ≡ call_found produce object (latest name ops none)
    unfolding create
    create-latest produce object name ops =
        let empty : find same name (new_factory {K = K} {P = P}).map_ ≡ none =
          unfold new_factory find in refl in
        ap (λ t. call_found produce object t)
          (find-run name ops new_factory ∙ ap (λ t. latest name ops t) empty)
