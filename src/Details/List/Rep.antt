-- ===== src/Details/List/Rep.antt =====
-- What a list object stands for.
use dep_srpc.Base.{ℕ, ◌≡◌, arith, true, false, ==_self}
use dep_srpc.Base.{[], ◌∷◌, length}
use dep_srpc.Details.List.{Memory, Handle}
use dep_srpc.Details.List.Links.{Cells, head_or, last_or, has, Links, Apart}

module _ {ℓ} {A : Type ℓ} where
  -- The list object stands for these cells: its nodes are linked both ways between NULL and NULL,
  -- its members point to the ends, and its size is their number.
  pub record Rep (m : Memory A) (l : Handle) (xs : Cells A) : Type ℓ where
    pub links : Links m 0 xs 0
    pub apart : Apart xs
    pub front : l.front_ ≡ head_or 0 xs
    pub back : l.back_ ≡ last_or 0 xs
    pub size : l.size_ ≡ length xs

  pub has_last : (d q : ℕ) (v : A) (xs : Cells A) → has (last_or q xs) ((q, v) ∷ xs) ≡ true
  has_last d q v [] = ground (arith, ==_self q)
  has_last d q v ((r, w) ∷ xs) = ground (arith, has_last d r w xs)

  pub not_in_first :
      (xs : Cells A) (p : ℕ) (v : A) (ys : Cells A) (q : ℕ)
      → ((a : ℕ) → has a xs ≡ true → has a ((p, v) ∷ ys) ≡ false)
      → has q ((p, v) ∷ ys) ≡ true
      → has q xs ≡ false
  not_in_first xs p v ys q disjoint e = ground (arith, disjoint q)
