-- ===== src/Cache/Laws.antt =====
-- The cache is bounded, and gives values back in the order in which it took them.
use dep_srpc.Base.{
  ℕ, ◌+◌, ◌≤◌, ◌<◌, ◌≡◌, refl, ap, sym, ◌∙◌, arith, true, false, ◌&&◌, ltb, Bool-cases, ◌⊎◌, inl,
  inr, List, [], ◌∷◌, ◌++◌, length, length-append, append_assoc, none, append-nil, ltb→lt,
}
use dep_srpc.Cache.{
  Simple, Op, gets, pushes, clears, new_simple, clear_unsafe, clear, get, push, size, step, run,
  shared_clear, shared_get, shared_push, shared_size, create_shared, shared_step, shared_run,
}

module _ {ℓ} {A : Type ℓ} where
  -- The cache holds no more than its maximum.
  abbrev pub Bounded : Simple A → Type 0
  Bounded c = size c ≤ c.maximum

  clear_unsafe-all : (xs : List A) → (clear_unsafe xs ≡ (xs, []))
  unfolding clear_unsafe
  clear_unsafe-all [] = refl
  clear_unsafe-all (x ∷ xs) = rw (clear_unsafe-all xs) refl

  push-full : (val : A) (c : Simple A) → c.maximum ≤ size c → push val c ≡ c
  unfolding push size
  push-full val c h =
      let full : (ltb 0 c.maximum && ltb (length c.cache) c.maximum) ≡ false = ground arith in
      rw full refl

  push-room :
      (val : A) (c : Simple A)
      → size c < c.maximum
      → push val c ≡ record c { cache = c.cache ++ val ∷ [] }
  unfolding push size
  push-room val c h =
      let room : (ltb 0 c.maximum && ltb (length c.cache) c.maximum) ≡ true = ground arith in
      rw room refl

  room_cases : (c : Simple A) → (size c < c.maximum) ⊎ (c.maximum ≤ size c)
  room_cases c = elim (Bool-cases (ltb (size c) c.maximum)) [
    | inl e ↦ inl (ltb→lt (size c) c.maximum e)
    | inr e ↦ inr (ground arith)
  ]

  get-fifo :
      (v : A) (m : ℕ) (xs : List A)
      → let c : Simple A = record { maximum = m; cache = xs } in
        ((step (gets v) c).0 ++ (step (gets v) c).2.cache ≡ xs ++ (step (gets v) c).1)
        × ((size (step (gets v) c).2 ≤ size c) × ((step (gets v) c).2.maximum ≡ m))
  unfolding step get size
  get-fifo v m [] = (refl, (omega arith, refl))
  get-fifo v m (x ∷ xs) = (sym (append-nil (x ∷ xs)), (omega arith, refl))

  size_lem : (c : Simple A) → size c < c.maximum → length c.cache < c.maximum
  unfolding size
  size_lem c h = h

  push-fifo :
      (v : A) (c : Simple A)
      → Bounded c
      → ((step (pushes v) c).0 ++ (step (pushes v) c).2.cache ≡ c.cache ++ (step (pushes v) c).1)
        × Bounded (step (pushes v) c).2
        × ((step (pushes v) c).2.maximum ≡ c.maximum)
  unfolding step
  push-fifo v c b = elim (room_cases c) [
    | inl room ↦
        let longer : length (c.cache ++ v ∷ []) ≡ length c.cache + 1 =
          length-append c.cache (v ∷ []) in
        let grown : ltb (length c.cache) (length (c.cache ++ v ∷ [])) ≡ true = ground arith in
        rw (push-room v c room)
          (unfold size in (rw grown refl, omega (arith, longer, (size_lem c room)), refl))
    | inr full ↦
        let same : ltb (size c) (size c) ≡ false = ground arith in
        rw (push-full v c full, same) (sym (append-nil c.cache), b, refl)
  ]

  step-fifo :
      (op : Op A) (c : Simple A)
      → Bounded c
      → ((step op c).0 ++ (step op c).2.cache ≡ c.cache ++ (step op c).1)
        × Bounded (step op c).2
        × ((step op c).2.maximum ≡ c.maximum)
  step-fifo (gets v) c b =
      let (fifo, (smaller, same)) = get-fifo v c.maximum c.cache in (fifo, omega arith, same)
  step-fifo (pushes v) c b = push-fifo v c b
  step-fifo clears c b =
      unfold step clear size in rw (clear_unsafe-all c.cache) (refl, omega arith, refl)

  -- In every history of a cache that is within its maximum: what leaves the cache, and then what
  -- stays in it, is what was in it and then what was taken in; the maximum stays and bounds the
  -- size.
  pub run-Bounded_fifo :
      (ops : List (Op A)) (c : Simple A)
      → Bounded c
      → ((run ops c).0 ++ (run ops c).2.cache ≡ c.cache ++ (run ops c).1)
        × Bounded (run ops c).2
        × ((run ops c).2.maximum ≡ c.maximum)
  unfolding run
  run-Bounded_fifo [] c b = (sym (append-nil c.cache), b, refl)
  run-Bounded_fifo (op ∷ ops) c b =
      let (fifo, bounded, same) = step-fifo op c b in
      let (rest, rest_bounded, rest_same) = run-Bounded_fifo ops (step op c).2 bounded in
      (
        append_assoc (step op c).0 (run ops (step op c).2).0 (run ops (step op c).2).2.cache
            ∙ ap (λ l. (step op c).0 ++ l) rest
            ∙ sym (append_assoc (step op c).0 (step op c).2.cache (run ops (step op c).2).1)
            ∙ ap (λ l. l ++ (run ops (step op c).2).1) fifo
            ∙ append_assoc c.cache (step op c).1 (run ops (step op c).2).1,
        rest_bounded,
        rest_same ∙ same,
      )

  shared_step-step :
      (op : Op A) (c : Simple A)
      → shared_step op (record { impl = c })
        ≡ ((step op c).0, (step op c).1, record { impl = (step op c).2 })
  unfolding shared_step shared_get shared_push shared_clear shared_size step
  shared_step-step (gets v) c = refl
  shared_step-step (pushes v) c = refl
  shared_step-step clears c = refl

  -- A shared cache does in every history what the cache inside it does.
  pub shared_run-run :
      (ops : List (Op A)) (c : Simple A)
      → shared_run ops (record { impl = c })
        ≡ ((run ops c).0, (run ops c).1, record { impl = (run ops c).2 })
  unfolding shared_run run
  shared_run-run [] c = refl
  shared_run-run (op ∷ ops) c = rw (shared_step-step op c, shared_run-run ops (step op c).2) refl

  -- A shared cache made without a maximum is empty after every history.
  pub shared_run-empty :
      (ops : List (Op A)) → shared_size (shared_run ops (create_shared none)).2 ≡ 0
  unfolding create_shared shared_size
  shared_run-empty ops =
      let start : Bounded (new_simple {A = A} 0) = unfold size new_simple in omega arith in
      let (fifo, bounded, same) = run-Bounded_fifo ops (new_simple 0) start in
      let zero_max : (new_simple {A = A} 0).maximum ≡ 0 = unfold new_simple in refl in
      rw (shared_run-run ops (new_simple 0)) (omega (arith, bounded, same, zero_max))
