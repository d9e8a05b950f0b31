-- ===== src/Query/Exclusion/Start.antt =====
-- The constructor of `ExclusionScorer`.
use piggy_engine.Prelude.{ℕ, List, [], true, ◌≡◌, sym, ◌∙◌}
use piggy_engine.Prelude.{Bool-cases, inl, inr}
use piggy_engine.Query.Docs.{keep, is_nonempty}
use piggy_engine.Query.Docs.Cases.{empty-nil, not-true, not-false}
use piggy_engine.Query.Cursor.{Cursor, IsCursor}
use piggy_engine.Query.Exclusion.{new}
use piggy_engine.Query.Exclusion.Step.{remaining, remaining_pending, IsExclusion, ended-Finds}
use piggy_engine.Query.Exclusion.Loop.{after_move}

module _ {M : Type 0} {cm : Cursor M} {Valid_main : M → Type 0} {docs_main : M → List ℕ}
    (im : IsCursor cm Valid_main docs_main) where
  module _ {E : Type 0} {ce : Cursor E} {Valid_excluded : E → Type 0} {docs_excluded : E → List ℕ}
      (ie : IsCursor ce Valid_excluded docs_excluded) where
    -- A new `ExclusionScorer` over valid scorers is valid, is at the first document of the main one
    -- that the excluded one lacks, and still has all such documents to come.
    pub new-IsExclusion :
        (m : M) (e : E)
        → Valid_main m
        → Valid_excluded e
        → IsExclusion im ie (new cm ce m e)
          × (remaining_pending im ie (new cm ce m e) ≡ remaining im ie m e)
    unfolding new
    new-IsExclusion m e vm ve = elim (Bool-cases (cm.is_end m)) [
      | inl over ↦
          let gone : docs_main m ≡ [] = empty-nil _ (not-true _ (sym (im.is_end_is m vm) ∙ over)) in
          let none : remaining im ie m e ≡ [] = unfold remaining keep in rw gone in
          let r = ended-Finds im ie m e vm ve gone in rw over (r.0, r.1 ∙ sym none)
      | inr going ↦
          let some : is_nonempty (docs_main m) ≡ true =
            not-false _ (sym (im.is_end_is m vm) ∙ going) in
          let r = after_move im ie true m e vm ve (sym some) in rw going (r.0, r.1)
    ]
