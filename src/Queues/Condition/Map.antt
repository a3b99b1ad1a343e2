-- ===== src/Queues/Condition/Map.antt =====
-- The map of keys.
use dep_srpc.Base.{ℕ, ◌≤◌, ◌≡◌, refl, ◌∙◌, arith, false, ◌==◌, none, List, [], ◌∷◌}
use dep_srpc.Base.{Bool-cases, ==_iff, inl, inr}
use dep_srpc.Base.{ltb}
use dep_srpc.Queues.Condition.{find, map_erase}

-- No key stands in the map twice.
abbrev pub Distinct : List (ℕ × ℕ) → Type 0
Distinct [] = Unit
Distinct ((k, h) ∷ m) = (find k m ≡ none) × Distinct m

pub find-erase : (k : ℕ) (m : List (ℕ × ℕ)) → Distinct m → find k (map_erase k m) ≡ none
unfolding find map_erase
find-erase k [] d = refl
find-erase k ((j, h) ∷ m) (new, d) = elim (Bool-cases (j == k)) [
  | inl e ↦ rw e (rw ((==_iff j k).0 e) at new)
  | inr e ↦ rw (e, find, e) (find-erase k m d)
]

pub find-erase_ne :
    (k j : ℕ) (m : List (ℕ × ℕ)) → (k == j) ≡ false → find j (map_erase k m) ≡ find j m
unfolding find map_erase
find-erase_ne k j [] e = refl
find-erase_ne k j ((i, h) ∷ m) e = elim (Bool-cases (i == k)) [
  | inl same ↦ let other : (i == j) ≡ false = rw ((==_iff i k).0 same) e in rw (same, other) refl
  | inr ne ↦ elim (Bool-cases (i == j)) [
    | inl hit ↦ rw (ne, find, hit) refl
    | inr miss ↦ rw (ne, find, miss) (find-erase_ne k j m e)
  ]
]

pub ltb-false : (a b : ℕ) → ltb a b ≡ false → b ≤ a
ltb-false a b e = ground arith

pub erase-Distinct : (k : ℕ) (m : List (ℕ × ℕ)) → Distinct m → Distinct (map_erase k m)
unfolding map_erase
erase-Distinct k [] d = tt
erase-Distinct k ((j, h) ∷ m) (new, d) = elim (Bool-cases (j == k)) [
  | inl e ↦ rw e d
  | inr e ↦
      let other : (k == j) ≡ false = ground arith in
      rw e (find-erase_ne k j m other ∙ new, erase-Distinct k m d)
]
