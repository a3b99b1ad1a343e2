-- ===== src/Acceptor/Udp/Clients/Order.antt =====
-- The datagrams of one client: no more wait than the client keeps, and none overtakes another.
use dep_srpc.Base.{
  ℕ, ◌≤◌, ◌≡◌, refl, ap, sym, ◌∙◌, arith, Bool, true, false, ltb, Bool-cases, inl, inr, List, [],
  ◌∷◌, ◌++◌, length, length-append, append_assoc, append-nil,
}
use dep_srpc.Cache.{Simple}
use dep_srpc.Acceptor.Udp.Clients.{
  Client, set_read_impl, push_data_impl, Op, reads, pushes, step, run,
}
use mathlib.Core.Path.{subst}

-- A client that waits for data has none left.
abbrev pub IdleOn : Bool → List (List ℕ) → Type 0
IdleOn true [] = Unit
IdleOn true (d ∷ ds) = ⊥
IdleOn false q = Unit

abbrev pub ClientOk : Client → Type 0
ClientOk c = (length c.read_queue ≤ c.max_cache) × IdleOn c.read c.read_queue

-- A list with some elements left out.
pub data Sublist {ℓ} {A : Type ℓ} : List A → List A → Type ℓ where
  done : Sublist [] []
  keep : (x : A) (xs ys : List A) → Sublist xs ys → Sublist (x ∷ xs) (x ∷ ys)
  leave : (y : A) (xs ys : List A) → Sublist xs ys → Sublist xs (y ∷ ys)

module _ {ℓ} {A : Type ℓ} where
  Sublist_refl : (xs : List A) → Sublist xs xs
  Sublist_refl [] = done
  Sublist_refl (x ∷ xs) = keep x xs xs (Sublist_refl xs)

  Sublist_prefix : (zs xs ys : List A) → Sublist xs ys → Sublist (zs ++ xs) (zs ++ ys)
  Sublist_prefix [] xs ys h = h
  Sublist_prefix (z ∷ zs) xs ys h = keep z (zs ++ xs) (zs ++ ys) (Sublist_prefix zs xs ys h)

  Sublist_left : (xs : List A) (y : A) (ys : List A) → Sublist (xs ++ ys) (xs ++ y ∷ ys)
  Sublist_left xs y ys = Sublist_prefix xs ys (y ∷ ys) (leave y ys ys (Sublist_refl ys))

  Sublist_trans : {ys zs : List A} → Sublist ys zs → (xs : List A) → Sublist xs ys → Sublist xs zs
  Sublist_trans done xs h = h
  Sublist_trans (leave z ys zs k) xs h = leave z xs zs (Sublist_trans k xs h)
  Sublist_trans (keep z ys zs k) _ (keep _ xs _ h) = keep z xs zs (Sublist_trans k xs h)
  Sublist_trans (keep z ys zs k) xs (leave _ _ _ h) = leave z xs zs (Sublist_trans k xs h)

  Sublist_append : {xs ys : List A} (zs : List A) → Sublist xs ys → Sublist (xs ++ zs) (ys ++ zs)
  Sublist_append zs done = Sublist_refl zs
  Sublist_append zs (keep x xs ys h) = keep x (xs ++ zs) (ys ++ zs) (Sublist_append zs h)
  Sublist_append zs (leave y xs ys h) = leave y _ (ys ++ zs) (Sublist_append zs h)

  -- Two parts of a history, one after the other.
  Sublist_step :
      (q p ps all : List A)
      → p ++ ps ≡ all
      → (es q1 : List A) → Sublist (es ++ q1) (q ++ p)
      → (more q2 : List A) → Sublist (more ++ q2) (q1 ++ ps)
      → Sublist ((es ++ more) ++ q2) (q ++ all)
  Sublist_step q p ps all whole es q1 first more q2 later =
      let inner : Sublist ((es ++ more) ++ q2) ((es ++ q1) ++ ps) =
        subst (λ t. Sublist t ((es ++ q1) ++ ps)) (sym (append_assoc es more q2))
          (subst (λ t. Sublist (es ++ (more ++ q2)) t) (sym (append_assoc es q1 ps))
            (Sublist_prefix es (more ++ q2) (q1 ++ ps) later)) in
      let outer : Sublist ((es ++ q1) ++ ps) (q ++ all) =
        subst (λ t. Sublist ((es ++ q1) ++ ps) t) (append_assoc q p ps ∙ ap (λ t. q ++ t) whole)
          (Sublist_append ps first) in
      Sublist_trans outer ((es ++ more) ++ q2) inner

unfoldable pub pushed : List Op → List (List ℕ)
pushed [] = []
pushed (reads ∷ ops) = pushed ops
pushed (pushes d ∷ ops) = d ∷ pushed ops

-- One handler: what it delivers and what waits then is what waited and what came, some left out.
abbrev pub Steps : Op → Client → Type 0
Steps op c =
    Sublist ((step op c).1 ++ (step op c).0.read_queue) (c.read_queue ++ pushed (op ∷ []))
    × ClientOk (step op c).0
    × ((step op c).0.number ≡ c.number)

reads-Steps :
    (n : ℕ) (r : Bool) (q : List (List ℕ)) (m : ℕ) (k : Simple (List ℕ))
    → ClientOk (record { number = n; read = r; read_queue = q; max_cache = m; cache = k })
    → Steps reads (record { number = n; read = r; read_queue = q; max_cache = m; cache = k })
unfolding step set_read_impl pushed
reads-Steps n true [] m k (h, i) = (done, (h, i), refl)
reads-Steps n true (d ∷ q) m k (h, i) = absurd i
reads-Steps n false [] m k (h, i) = (done, (h, tt), refl)
reads-Steps n false (d ∷ q) m k (h, i) = (
  subst (λ t. Sublist (d ∷ q) t) (sym (append-nil (d ∷ q))) (Sublist_refl (d ∷ q)),
  (omega arith, tt),
  refl,
)

pushes-Steps :
    (d : List ℕ) (n : ℕ) (r : Bool) (q : List (List ℕ)) (m : ℕ) (k : Simple (List ℕ))
    → ClientOk (record { number = n; read = r; read_queue = q; max_cache = m; cache = k })
    → Steps (pushes d) (record { number = n; read = r; read_queue = q; max_cache = m; cache = k })
unfolding step push_data_impl pushed
pushes-Steps d n true [] m k (h, i) = (Sublist_refl (d ∷ []), (h, tt), refl)
pushes-Steps d n true (e ∷ q) m k (h, i) = absurd i
pushes-Steps d n false q m k (h, i) = elim (Bool-cases (ltb (length q) m)) [
  | inl room ↦
      rw room (Sublist_refl (q ++ d ∷ []), (ground (arith, length-append q (d ∷ [])), tt), refl)
  | inr full ↦
      rw full
        (subst (λ t. Sublist t (q ++ d ∷ [])) (append-nil q) (Sublist_left q d []), (h, tt), refl)
]

pub step-Steps : (op : Op) (c : Client) → ClientOk c → Steps op c
step-Steps reads c h = reads-Steps c.number c.read c.read_queue c.max_cache c.cache h
step-Steps (pushes d) c h = pushes-Steps d c.number c.read c.read_queue c.max_cache c.cache h

pushed_cons : (op : Op) (ops : List Op) → pushed (op ∷ []) ++ pushed ops ≡ pushed (op ∷ ops)
unfolding pushed
pushed_cons reads ops = refl
pushed_cons (pushes d) ops = refl

-- In every history of a client that starts within its bounds: no more datagrams wait than
-- `max_cache`, none waits for a client that is reading, and what was delivered, followed by what
-- waits, is what waited at first followed by what came, in that order, with some datagrams left
-- out.
pub run-Sublist :
    (ops : List Op) (c : Client)
    → ClientOk c
    → Sublist ((run ops c).1 ++ (run ops c).0.read_queue) (c.read_queue ++ pushed ops)
      × ClientOk (run ops c).0
unfolding run pushed
run-Sublist [] c h = (
  subst (λ t. Sublist c.read_queue t) (sym (append-nil c.read_queue)) (Sublist_refl c.read_queue),
  h,
)
run-Sublist (op ∷ ops) c h =
    let (first, ok, number) = step-Steps op c h in
    let (later, end_ok) = run-Sublist ops (step op c).0 ok in
    (
      Sublist_step c.read_queue (pushed (op ∷ [])) (pushed ops) (pushed (op ∷ ops))
          (pushed_cons op ops) (step op c).1 (step op c).0.read_queue first
          (run ops (step op c).0).1 (run ops (step op c).0).0.read_queue later,
      end_ok,
    )
