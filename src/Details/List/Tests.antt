-- ===== src/Details/List/Tests.antt =====
-- The linked list at concrete memories.
use dep_srpc.Base.{
  ℕ, ◌+◌, ◌≡◌, refl, arith, true, false, ◌==◌, if◌then◌else◌, none, some, [], ◌∷◌, ◌++◌, length,
}
use dep_srpc.Details.List.{Memory, Handle, new_list, erase, rerase, splice_back, clear}
use dep_srpc.Details.List.Links.{Cells, has}
use dep_srpc.Details.List.Rep.{Rep}
use dep_srpc.Details.List.Erase.{erase-Rep}
use dep_srpc.Details.List.Refine.{splice_back-Rep}
use dep_srpc.Details.List.Clear.{clear-Rep}

-- A list of 10, 20 and 30 at the addresses 1, 2 and 3, and one of 40 at the address 4.
abbrev memory : Memory ℕ
memory a =
    if a == 1
    then some (record { prev_ = 0; next_ = 2; data_ = 10 })
    else if a == 2
    then some (record { prev_ = 1; next_ = 3; data_ = 20 })
    else if a == 3
    then some (record { prev_ = 2; next_ = 0; data_ = 30 })
    else if a == 4
    then some (record { prev_ = 0; next_ = 0; data_ = 40 })
    else none

abbrev three : Handle
three = record { front_ = 1; back_ = 3; size_ = 3 }

abbrev one : Handle
one = record { front_ = 4; back_ = 4; size_ = 1 }

abbrev three_cells : Cells ℕ
three_cells = (1, 10) ∷ (2, 20) ∷ (3, 30) ∷ []

three-Rep : Rep memory three three_cells
three-Rep = record {
  links = (refl, (refl, (refl, tt)));
  apart = (refl, (refl, (refl, (refl, (refl, (refl, tt))))));
  front = refl;
  back = refl;
  size = refl;
}

one-Rep : Rep memory one ((4, 40) ∷ [])
one-Rep = record {
  links = (refl, tt);
  apart = (refl, (refl, tt));
  front = refl;
  back = refl;
  size = refl;
}

erase-Rep_example :
    (m' : Memory ℕ) × (l' : Handle) × (erase 2 memory three ≡ some (3, m', l'))
    × (rerase 2 memory three ≡ some (1, m', l'))
    × Rep m' l' ((1, 10) ∷ (3, 30) ∷ [])
erase-Rep_example = erase-Rep memory three ((1, 10) ∷ []) 2 20 ((3, 30) ∷ []) three-Rep

splice_back-Rep_example :
    (m' : Memory ℕ) × (l' : Handle) × (splice_back memory three one ≡ some (m', l', new_list))
    × Rep m' l' (three_cells ++ (4, 40) ∷ [])
splice_back-Rep_example =
    splice_back-Rep memory three one three_cells ((4, 40) ∷ []) three-Rep one-Rep
      (λ a e. ground arith)

clear-Rep_example :
    (m' : Memory ℕ) × (clear (length three_cells + 1) memory three
      ≡ some (m', record { front_ = 0; back_ = 0; size_ = 3 }))
    × ((a : ℕ) → has a three_cells ≡ true → m' a ≡ none)
    × ((a : ℕ) → has a three_cells ≡ false → m' a ≡ memory a)
clear-Rep_example = clear-Rep memory three three_cells three-Rep
