-- ===== src/Details/List.antt =====
-- include/srpc/common/details/list.h: the doubly linked list. A pointer is a number, 0 for NULL,
-- and memory gives each address its node, if it holds one. A step through a pointer that holds no
-- node has no result. `new` returns an address of its choice, which is an argument. The `size_` of
-- a list that holds a node is above 0, so `size_--` does not wrap where a node is cut out.
pub mod Links
pub mod Change
pub mod Clear
pub mod Erase
pub mod Refine
pub mod Rep
pub mod Tests
use dep_srpc.Base.{
  ℕ, zero, suc, ◌+◌, ◌-◌, Bool, true, false, ◌==◌, if◌then◌else◌, Option, none, some,
}

-- `node`.
pub record Node {ℓ} (A : Type ℓ) : Type ℓ where
  pub prev_ : ℕ
  pub next_ : ℕ
  pub data_ : A

abbrev pub Memory {ℓ} : Type ℓ → Type ℓ
Memory A = ℕ → Option (Node A)

-- The members of a `list`.
pub record Handle : Type 0 where
  pub front_ : ℕ
  pub back_ : ℕ
  pub size_ : ℕ

unfoldable pub new_list : Handle
new_list = record { front_ = 0; back_ = 0; size_ = 0 }

-- `swap`: this list and the other.
unfoldable pub swap : Handle → Handle → Handle × Handle
swap l other = (other, l)

module _ {ℓ} {A : Type ℓ} where
  unfoldable pub write : Memory A → ℕ → Option (Node A) → Memory A
  write m p c q = if p == q then c else m q

  unfoldable pub set_next : ℕ → ℕ → Memory A → Option (Memory A)
  set_next p to m = elim (m p) [
    | none ↦ none
    | some n ↦ some (write m p (some (record n { next_ = to })))
  ]

  unfoldable pub set_prev : ℕ → ℕ → Memory A → Option (Memory A)
  set_prev p to m = elim (m p) [
    | none ↦ none
    | some n ↦ some (write m p (some (record n { prev_ = to })))
  ]

  -- The two conditional stores at the head of `cerase`.
  unfoldable pub set_next_if : ℕ → ℕ → Memory A → Option (Memory A)
  set_next_if p to m = if p == 0 then some m else set_next p to m

  unfoldable pub set_prev_if : ℕ → ℕ → Memory A → Option (Memory A)
  set_prev_if p to m = if p == 0 then some m else set_prev p to m

  -- `cerase` with the pointers of the node, which its own stores do not change.
  unfoldable pub cut_out : ℕ → Node A → Memory A → Handle → Option (Memory A × Handle)
  cut_out p n m l = elim (set_next_if n.prev_ n.next_ m) [
    | none ↦ none
    | some m1 ↦ elim (set_prev_if n.next_ n.prev_ m1) [
      | none ↦ none
      | some m2 ↦ some (
        write m2 p none,
        record {
          front_ = if p == l.front_ then n.next_ else l.front_;
          back_ = if p == l.back_ then n.prev_ else l.back_;
          size_ = l.size_ - 1;
        },
      )
    ]
  ]

  unfoldable pub cerase : ℕ → Memory A → Handle → Option (Memory A × Handle)
  cerase p m l = elim (m p) [ none ↦ none | some n ↦ cut_out p n m l ]

  -- The iterator that comes back, and the state.
  unfoldable pub erase : ℕ → Memory A → Handle → Option (ℕ × Memory A × Handle)
  erase p m l = elim (p == 0) [
    | true ↦ some (p, m, l)
    | false ↦ elim (m p) [
      | none ↦ none
      | some n ↦ elim (cut_out p n m l) [ none ↦ none | some (m1, l1) ↦ some (n.next_, m1, l1) ]
    ]
  ]

  unfoldable pub rerase : ℕ → Memory A → Handle → Option (ℕ × Memory A × Handle)
  rerase p m l = elim (p == 0) [
    | true ↦ some (p, m, l)
    | false ↦ elim (m p) [
      | none ↦ none
      | some n ↦ elim (cut_out p n m l) [ none ↦ none | some (m1, l1) ↦ some (n.prev_, m1, l1) ]
    ]
  ]

  unfoldable pub push_back : ℕ → A → Memory A → Handle → Option (Memory A × Handle)
  push_back new_node v m l =
      let m1 = write m new_node (some (record { prev_ = 0; next_ = 0; data_ = v })) in
      elim (l.front_ == 0) [
        | true ↦ some (m1, record { front_ = new_node; back_ = new_node; size_ = l.size_ + 1 })
        | false ↦ elim (set_prev new_node l.back_ m1) [
          | none ↦ none
          | some m2 ↦ elim (set_next l.back_ new_node m2) [
            | none ↦ none
            | some m3 ↦ some (m3, record l { back_ = new_node; size_ = l.size_ + 1 })
          ]
        ]
      ]

  unfoldable pub push_front : ℕ → A → Memory A → Handle → Option (Memory A × Handle)
  push_front new_node v m l =
      let m1 = write m new_node (some (record { prev_ = 0; next_ = 0; data_ = v })) in
      elim (l.front_ == 0) [
        | true ↦ some (m1, record { front_ = new_node; back_ = new_node; size_ = l.size_ + 1 })
        | false ↦ elim (set_next new_node l.front_ m1) [
          | none ↦ none
          | some m2 ↦ elim (set_prev l.front_ new_node m2) [
            | none ↦ none
            | some m3 ↦ some (m3, record l { front_ = new_node; size_ = l.size_ + 1 })
          ]
        ]
      ]

  -- `splice_back` of another list: memory, this list and the other.
  unfoldable pub splice_back : Memory A → Handle → Handle → Option (Memory A × Handle × Handle)
  splice_back m l other = elim (l.front_ == 0) [
    | true ↦ some (
      m,
      record { front_ = other.front_; back_ = other.back_; size_ = l.size_ + other.size_ },
      new_list,
    )
    | false ↦ elim (other.front_ == 0) [
      | true ↦ some (m, record l { size_ = l.size_ + other.size_ }, new_list)
      | false ↦ elim (set_next l.back_ other.front_ m) [
        | none ↦ none
        | some m1 ↦ elim (set_prev other.front_ l.back_ m1) [
          | none ↦ none
          | some m2 ↦
              some (m2, record l { back_ = other.back_; size_ = l.size_ + other.size_ }, new_list)
        ]
      ]
    ]
  ]

  -- The loop of `clear` on fuel, and `clear`, which leaves `size_` as it is.
  unfoldable pub clear_loop : ℕ → ℕ → Memory A → Option (Memory A)
  clear_loop zero p m = none
  clear_loop (suc fuel) p m = elim (p == 0) [
    | true ↦ some m
    | false ↦ elim (m p) [ none ↦ none | some n ↦ clear_loop fuel n.next_ (write m p none) ]
  ]

  unfoldable pub clear : ℕ → Memory A → Handle → Option (Memory A × Handle)
  clear fuel m l = elim (clear_loop fuel l.front_ m) [
    | none ↦ none
    | some m1 ↦ some (m1, record l { front_ = 0; back_ = 0 })
  ]

  -- The iterators' `operator ++` and `operator --`.
  unfoldable pub forward : Memory A → ℕ → Option ℕ
  forward m p = elim (m p) [ none ↦ none | some n ↦ some n.next_ ]

  unfoldable pub backward : Memory A → ℕ → Option ℕ
  backward m p = elim (m p) [ none ↦ none | some n ↦ some n.prev_ ]
