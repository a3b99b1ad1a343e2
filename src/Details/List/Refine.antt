-- ===== src/Details/List/Refine.antt =====
-- Adding to the linked list, against plain lists.
use dep_srpc.Base.{ℕ, ◌+◌, ◌≡◌, refl, sym, ◌∙◌, arith, true, false, ◌==◌, ==_iff, Option, some}
use dep_srpc.Base.{[], ◌∷◌, ◌++◌, append-nil, length-append}
use dep_srpc.Details.List.{
  Node, Memory, Handle, new_list, write, set_next, set_prev, push_back, push_front, splice_back,
}
use dep_srpc.Details.List.Links.{
  Cells, last_or, has, Links, Apart, write_same, last_or-append, Links-append, Links-write,
  Apart-append,
}
use dep_srpc.Details.List.Change.{Links-frame, set_next-Stored, set_prev-Stored}
use dep_srpc.Details.List.Rep.{Rep, not_in_first}

module _ {ℓ} {A : Type ℓ} where
  -- Two chains are joined by the stores of `splice_back`, in its order.
  join-Links :
      (m : Memory A) (q : ℕ) (w : A) (xs : Cells A) (r : ℕ) (u : A) (ys : Cells A)
      → Links m 0 ((q, w) ∷ xs) 0
      → Links m 0 ((r, u) ∷ ys) 0
      → Apart ((q, w) ∷ xs)
      → Apart ((r, u) ∷ ys)
      → ((a : ℕ) → has a ((q, w) ∷ xs) ≡ true → has a ((r, u) ∷ ys) ≡ false)
      → (m1 m2 : Memory A) × (set_next (last_or q xs) r m ≡ some m1)
        × (set_prev r (last_or q xs) m1 ≡ some m2)
        × Links m2 0 (((q, w) ∷ xs) ++ ((r, u) ∷ ys)) 0
  join-Links m q w xs r u ys h k left right disjoint =
      let r1 = set_next-Stored m 0 q w xs 0 r left h in
      let k1 : Links r1.memory 0 ((r, u) ∷ ys) 0 =
        Links-frame m r1.memory 0 ((r, u) ∷ ys) 0
          (λ a e. r1.spared a (not_in_first ((q, w) ∷ xs) r u ys a disjoint e)) k in
      let r2 = set_prev-Stored r1.memory 0 r u ys 0 (last_or q xs) right k1 in
      (
        r1.memory,
        r2.memory,
        r1.result,
        r2.result,
        Links-append r2.memory 0 ((q, w) ∷ xs) ((r, u) ∷ ys) 0
            (Links-frame r1.memory r2.memory 0 ((q, w) ∷ xs) r (λ a e. r2.spared a (disjoint a e))
              r1.links)
            r2.links,
      )

  -- A new node beside a chain that it is not part of.
  fresh-Links :
      (m : Memory A) (xs : Cells A) (p : ℕ) (c : Option (Node A))
      → has p xs ≡ false
      → Links m 0 xs 0
      → Links (write m p c) 0 xs 0
  fresh-Links m xs p c out h = Links-write m p c 0 xs 0 out h

  only_that :
      (p : ℕ) (v : A) (xs : Cells A) (a : ℕ)
      → has p xs ≡ false
      → has a ((p, v) ∷ []) ≡ true
      → has a xs ≡ false
  only_that p v xs a out e = ground (arith, ==_iff p a)

  push_back-Rep :
      (m : Memory A) (l : Handle) (xs : Cells A) (p : ℕ) (v : A)
      → Rep m l xs
      → (p == 0) ≡ false
      → has p xs ≡ false
      → (m' : Memory A) × (l' : Handle) × (push_back p v m l ≡ some (m', l'))
        × Rep m' l' (xs ++ (p, v) ∷ [])
  unfolding push_back
  push_back-Rep m l [] p v rep nn out =
      let n : Node A = record { prev_ = 0; next_ = 0; data_ = v } in
      let z : (l.front_ == 0) ≡ true = rw rep.front refl in
      (
        write m p (some n),
        record { front_ = p; back_ = p; size_ = l.size_ + 1 },
        rw (z, push_back) refl,
        record {
          links = (write_same m p (some n), tt);
          apart = (refl, (nn, tt));
          front = refl;
          back = refl;
          size = omega (arith, rep.size);
        },
      )
  push_back-Rep m l ((q, w) ∷ xs) p v rep nn out =
      let n : Node A = record { prev_ = 0; next_ = 0; data_ = v } in
      let m1 : Memory A = write m p (some n) in
      let z : (l.front_ == 0) ≡ false = rw rep.front (rep.apart.1.0) in
      let one : Apart ((p, v) ∷ []) = (refl, (nn, tt)) in
      let r2 = set_prev-Stored m1 0 p v [] 0 (last_or q xs) one (write_same m p (some n), tt) in
      let old : Links r2.memory 0 ((q, w) ∷ xs) 0 =
        Links-frame m1 r2.memory 0 ((q, w) ∷ xs) 0
          (λ a e. r2.spared a (ground (arith, only_that p v ((q, w) ∷ xs) a out)))
          (fresh-Links m ((q, w) ∷ xs) p (some n) out rep.links) in
      let r3 = set_next-Stored r2.memory 0 q w xs 0 p rep.apart old in
      (
        r3.memory,
        record l { back_ = p; size_ = l.size_ + 1 },
        rw (z, push_back, rep.back, r2.result, rep.back, r3.result) refl,
        record {
          links = Links-append r3.memory 0 ((q, w) ∷ xs) ((p, v) ∷ []) 0 r3.links (
              Links-frame r2.memory r3.memory (last_or q xs) ((p, v) ∷ []) 0
                (λ a e. r3.spared a (only_that p v ((q, w) ∷ xs) a out e)) r2.links);
          apart =
              Apart-append ((q, w) ∷ xs) ((p, v) ∷ []) rep.apart one
                (λ a e. ground (arith, only_that p v ((q, w) ∷ xs) a out));
          front = rep.front;
          back = sym (last_or-append 0 ((q, w) ∷ xs) ((p, v) ∷ []));
          size = omega (arith, rep.size, length-append ((q, w) ∷ xs) ((p, v) ∷ []));
        },
      )

  push_front-Rep :
      (m : Memory A) (l : Handle) (xs : Cells A) (p : ℕ) (v : A)
      → Rep m l xs
      → (p == 0) ≡ false
      → has p xs ≡ false
      → (m' : Memory A) × (l' : Handle) × (push_front p v m l ≡ some (m', l'))
        × Rep m' l' ((p, v) ∷ xs)
  unfolding push_front
  push_front-Rep m l [] p v rep nn out =
      let n : Node A = record { prev_ = 0; next_ = 0; data_ = v } in
      let z : (l.front_ == 0) ≡ true = rw rep.front refl in
      (
        write m p (some n),
        record { front_ = p; back_ = p; size_ = l.size_ + 1 },
        rw (z, push_front) refl,
        record {
          links = (write_same m p (some n), tt);
          apart = (refl, (nn, tt));
          front = refl;
          back = refl;
          size = omega (arith, rep.size);
        },
      )
  push_front-Rep m l ((q, w) ∷ xs) p v rep nn out =
      let n : Node A = record { prev_ = 0; next_ = 0; data_ = v } in
      let m1 : Memory A = write m p (some n) in
      let z : (l.front_ == 0) ≡ false = rw rep.front (rep.apart.1.0) in
      let (m2, m3, e2, e3, links) =
        join-Links m1 p v [] q w xs (write_same m p (some n), tt)
          (fresh-Links m ((q, w) ∷ xs) p (some n) out rep.links) (refl, (nn, tt)) rep.apart
          (λ a e. only_that p v ((q, w) ∷ xs) a out e) in
      (
        m3,
        record l { front_ = p; size_ = l.size_ + 1 },
        rw (z, push_front, rep.front, e2, rep.front, e3) refl,
        record {
          links = links;
          apart = (out, (nn, rep.apart));
          front = refl;
          back = rep.back;
          size = omega (arith, rep.size);
        },
      )

  -- `splice_back` moves all nodes of another list behind those of this one, in their order, and
  -- leaves the other list empty.
  pub splice_back-Rep :
      (m : Memory A) (l other : Handle) (xs ys : Cells A)
      → Rep m l xs
      → Rep m other ys
      → ((a : ℕ) → has a xs ≡ true → has a ys ≡ false)
      → (m' : Memory A) × (l' : Handle) × (splice_back m l other ≡ some (m', l', new_list))
        × Rep m' l' (xs ++ ys)
  unfolding splice_back
  splice_back-Rep m l other [] ys rep rep' disjoint =
      let z : (l.front_ == 0) ≡ true = rw rep.front refl in
      (
        m,
        record { front_ = other.front_; back_ = other.back_; size_ = l.size_ + other.size_ },
        rw (z, splice_back) refl,
        record {
          links = rep'.links;
          apart = rep'.apart;
          front = rep'.front;
          back = rep'.back;
          size = omega (arith, rep.size, rep'.size);
        },
      )
  splice_back-Rep m l other ((q, w) ∷ xs) [] rep rep' disjoint =
      let z : (l.front_ == 0) ≡ false = rw rep.front (rep.apart.1.0) in
      let z' : (other.front_ == 0) ≡ true = rw rep'.front refl in
      (
        m,
        record l { size_ = l.size_ + other.size_ },
        rw (z, z', splice_back) refl,
        rw append-nil (record {
          links = rep.links;
          apart = rep.apart;
          front = rep.front;
          back = rep.back;
          size = omega (arith, rep.size, rep'.size);
        }),
      )
  splice_back-Rep m l other ((q, w) ∷ xs) ((r, u) ∷ ys) rep rep' disjoint =
      let z : (l.front_ == 0) ≡ false = rw rep.front (rep.apart.1.0) in
      let z' : (other.front_ == 0) ≡ false = rw rep'.front (rep'.apart.1.0) in
      let (m1, m2, e1, e2, links) =
        join-Links m q w xs r u ys rep.links rep'.links rep.apart rep'.apart disjoint in
      (
        m2,
        record l { back_ = other.back_; size_ = l.size_ + other.size_ },
        rw (z, z', splice_back, rep.back, rep'.front, e1, rep.back, rep'.front, e2) refl,
        record {
          links = links;
          apart = Apart-append ((q, w) ∷ xs) ((r, u) ∷ ys) rep.apart rep'.apart disjoint;
          front = rep.front;
          back = rep'.back ∙ sym (last_or-append 0 ((q, w) ∷ xs) ((r, u) ∷ ys));
          size = omega (arith, rep.size, rep'.size, length-append ((q, w) ∷ xs) ((r, u) ∷ ys));
        },
      )
