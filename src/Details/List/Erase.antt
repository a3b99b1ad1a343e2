-- ===== src/Details/List/Erase.antt =====
-- Taking a node out of the linked list.
use dep_srpc.Base.{
  ℕ, ◌-◌, ◌≡◌, refl, sym, ◌∙◌, arith, true, false, ◌==◌, if◌then◌else◌, ==_iff, ==_self, none, some,
}
use dep_srpc.Base.{[], ◌∷◌, ◌++◌, append-nil, length-append}
use dep_srpc.Details.List.{Memory, Handle, write, cut_out, erase, rerase}
use dep_srpc.Details.List.Links.{
  Cells, head_or, last_or, has, Links, Apart, last_or-append, Links-append, Links-split,
  Links-write, Apart-append, Apart-split,
}
use dep_srpc.Details.List.Change.{Links-frame, set_next_if-Stored, set_prev_if-Stored}
use dep_srpc.Details.List.Rep.{has_last, Rep, not_in_first}

module _ {ℓ} {A : Type ℓ} where
  not_in_second :
      (p : ℕ) (v : A) (ys : Cells A) (q : ℕ) → has q ((p, v) ∷ ys) ≡ false → has q ys ≡ false
  not_in_second p v ys q e = ground arith

  in_rest : (p : ℕ) (v : A) (ys : Cells A) (q : ℕ) → has q ys ≡ true → has q ((p, v) ∷ ys) ≡ true
  in_rest p v ys q e = ground arith

  in_head : (p : ℕ) (v : A) (ys : Cells A) → has p ((p, v) ∷ ys) ≡ true
  in_head p v ys = ground (arith, ==_self p)

  cut_front :
      (p : ℕ) (v : A) (xs ys : Cells A) (f : ℕ)
      → has p xs ≡ false
      → f ≡ head_or 0 (xs ++ (p, v) ∷ ys)
      → (if p == f then head_or 0 ys else f) ≡ head_or 0 (xs ++ ys)
  cut_front p v [] ys f out e = rw (e, ==_self p) refl
  cut_front p v ((q, w) ∷ xs) ys f out e = let other : (p == f) ≡ false = ground arith in rw other e

  ne_of_has : (p q : ℕ) (xs : Cells A) → has p xs ≡ false → has q xs ≡ true → (p == q) ≡ false
  ne_of_has p q xs out e = ground (arith, ==_iff p q)

  cut_back :
      (p : ℕ) (v : A) (xs ys : Cells A) (b : ℕ)
      → has p ys ≡ false
      → has p xs ≡ false
      → b ≡ last_or p ys
      → (if p == b then last_or 0 xs else b) ≡ last_or 0 (xs ++ ys)
  cut_back p v xs [] b out out' e = rw (e, ==_self p, append-nil) refl
  cut_back p v xs ((q, w) ∷ ys) b out out' e =
      let other : (p == b) ≡ false =
        rw e (ne_of_has p (last_or q ys) ((q, w) ∷ ys) out (has_last 0 q w ys)) in
      rw other (e ∙ sym (last_or-append 0 xs ((q, w) ∷ ys)))

  -- Cutting a node out from between two runs.
  pub cut_out-Rep :
      (m : Memory A) (l : Handle) (xs : Cells A) (p : ℕ) (v : A) (ys : Cells A)
      → Rep m l (xs ++ (p, v) ∷ ys)
      → (m' : Memory A) × (l' : Handle) × (cut_out p
            (record { prev_ = last_or 0 xs; next_ = head_or 0 ys; data_ = v })
            m
            l
          ≡ some (m', l'))
        × Rep m' l' (xs ++ ys)
  unfolding cut_out
  cut_out-Rep m l xs p v ys rep =
      let (before, (here, after)) = Links-split m 0 xs ((p, v) ∷ ys) 0 rep.links in
      let (left, ((out, (nn, right)), disjoint)) = Apart-split xs ((p, v) ∷ ys) rep.apart in
      let r1 = set_next_if-Stored m xs p (head_or 0 ys) left before in
      let ys_still : Links r1.memory p ys 0 =
        Links-frame m r1.memory p ys 0
          (λ q e. r1.spared q (not_in_first xs p v ys q disjoint (in_rest p v ys q e))) after in
      let r2 = set_prev_if-Stored r1.memory p ys (last_or 0 xs) right ys_still in
      let xs_still : Links r2.memory 0 xs (head_or 0 ys) =
        Links-frame r1.memory r2.memory 0 xs (head_or 0 ys)
          (λ q e. r2.spared q (not_in_second p v ys q (disjoint q e))) r1.links in
      let p_out : has p xs ≡ false = not_in_first xs p v ys p disjoint (in_head p v ys) in
      (
        write r2.memory p none,
        record {
          front_ = if p == l.front_ then head_or 0 ys else l.front_;
          back_ = if p == l.back_ then last_or 0 xs else l.back_;
          size_ = l.size_ - 1;
        },
        rw (r1.result, cut_out, r2.result) refl,
        record {
          links =
              Links-append (write r2.memory p none) 0 xs ys 0
                (Links-write r2.memory p none 0 xs (head_or 0 ys) p_out xs_still)
                (Links-write r2.memory p none (last_or 0 xs) ys 0 out r2.links);
          apart = Apart-append xs ys left right (λ q e. not_in_second p v ys q (disjoint q e));
          front = cut_front p v xs ys l.front_ p_out rep.front;
          back =
              cut_back p v xs ys l.back_ out p_out (rep.back ∙ last_or-append 0 xs ((p, v) ∷ ys));
          size = omega (arith, rep.size, length-append xs ((p, v) ∷ ys), length-append xs ys);
        },
      )

  no_null : (xs ys : Cells A) (p : ℕ) (v : A) → Apart (xs ++ (p, v) ∷ ys) → (p == 0) ≡ false
  no_null [] ys p v (out, (nn, apart)) = nn
  no_null ((q, w) ∷ xs) ys p v (out, (nn, apart)) = no_null xs ys p v apart

  node_at :
      (m : Memory A) (before : ℕ) (xs : Cells A) (p : ℕ) (v : A) (ys : Cells A)
      → Links m before (xs ++ (p, v) ∷ ys) 0
      → m p ≡ some (record { prev_ = last_or before xs; next_ = head_or 0 ys; data_ = v })
  node_at m before xs p v ys h = (Links-split m before xs ((p, v) ∷ ys) 0 h).1.0

  -- `erase` through an iterator to any node takes that node and no other out of the list, and gives
  -- the iterator to the node behind it; `rerase` gives that before it.
  pub erase-Rep :
      (m : Memory A) (l : Handle) (xs : Cells A) (p : ℕ) (v : A) (ys : Cells A)
      → Rep m l (xs ++ (p, v) ∷ ys)
      → (m' : Memory A) × (l' : Handle) × (erase p m l ≡ some (head_or 0 ys, m', l'))
        × (rerase p m l ≡ some (last_or 0 xs, m', l'))
        × Rep m' l' (xs ++ ys)
  unfolding erase rerase
  erase-Rep m l xs p v ys rep =
      let (m', l', e, rep') = cut_out-Rep m l xs p v ys rep in
      let nn = no_null xs ys p v rep.apart in
      let here = node_at m 0 xs p v ys rep.links in
      (m', l', rw (nn, erase, here, e) refl, rw (nn, rerase, here, e) refl, rep')
