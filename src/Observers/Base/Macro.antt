-- ===== src/Observers/Base/Macro.antt =====
-- The operators of base.h for compilers before C++11: one body, spelled by the macros
-- SRPC_OBSERVER_OPERATOR_PROLOGUE and SRPC_OBSERVER_OPERATOR_EPILOGUE, whose tests stand in another
-- order than those of `operator ( )` above them.
use dep_srpc.Base.{
  ℕ, ◌≡◌, refl, true, false, not, if◌then◌else◌, Bool-cases, inl, inr, List, [], ◌∷◌, ◌++◌,
}
use dep_srpc.Observers.Base.{
  SlotInfo, Impl, Call, Traits, Pass, run_calls, set_has, set_erase, splice_added, clear_removed,
  walk, invoke,
}

module _ {ℓ} {S : Type ℓ} where
  unfoldable pub walk_macro : Traits S → (ℕ → List (Call S)) → List (SlotInfo S) → Impl S → Pass S
  walk_macro t others [] st = record { kept = []; state = st; ran = [] }
  walk_macro t others (b ∷ bs) st = elim (not (set_has b.id st.removed)) [
    | true ↦
        let st1 = run_calls (others b.id ++ t.exec b.slot) st in
        let rest = walk_macro t others bs st1 in
        record {
          kept = if t.expired b.slot then rest.kept else b ∷ rest.kept;
          state = rest.state;
          ran = b.id ∷ rest.ran;
        }
    | false ↦
        let st1 = record st { removed = set_erase b.id st.removed } in
        walk_macro t others bs (run_calls (others b.id) st1)
  ]

  unfoldable pub invoke_macro : Traits S → (ℕ → List (Call S)) → Impl S → Impl S × List ℕ
  invoke_macro t others st =
      let spliced = splice_added st in
      let pass = walk_macro t others spliced.list spliced in
      (clear_removed (record pass.state { list = pass.kept }), pass.ran)

  walk_macro-walk :
      (t : Traits S) (others : ℕ → List (Call S)) (bs : List (SlotInfo S)) (st : Impl S)
      → walk_macro t others bs st ≡ walk t others bs st
  unfolding walk_macro walk
  walk_macro-walk t others [] st = refl
  walk_macro-walk t others (b ∷ bs) st = elim (Bool-cases (set_has b.id st.removed)) [
    | inl gone ↦
        rw (gone, walk_macro, walk)
          (walk_macro-walk t others bs
            (run_calls (others b.id) (record st { removed = set_erase b.id st.removed })))
    | inr here ↦
        rw
          (
            here,
            walk_macro,
            walk,
            walk_macro-walk t others bs (run_calls (others b.id ++ t.exec b.slot) st),
          )
          refl
  ]

  -- Both spellings of the operator run the same slots and leave the same object.
  pub invoke_macro-invoke :
      (t : Traits S) (others : ℕ → List (Call S)) (st : Impl S)
      → invoke_macro t others st ≡ invoke t others st
  unfolding invoke_macro invoke
  invoke_macro-invoke t others st =
      let spliced : Impl S = splice_added st in
      rw (walk_macro-walk t others spliced.list spliced) refl
