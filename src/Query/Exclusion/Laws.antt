-- ===== src/Query/Exclusion/Laws.antt =====
-- An exclusion of cursors is a cursor over the documents of the main one that the other lacks.
use piggy_engine.Prelude.{ℕ, ◌+◌, List, [], ◌∷◌, false, not, ◌≡◌, refl, ap, sym, ◌∙◌, arith}
use piggy_engine.Prelude.{◌==◌, ==_iff, Bool-cases, inl, inr}
use piggy_engine.Core.{invalid_doc}
use piggy_engine.Query.Docs.{IsAscending, mem, keep, drop_below, head_or_invalid, is_nonempty}
use piggy_engine.Query.Docs.Laws.{keep-IsAscending, drop_below-keep, drop_below_suc}
use piggy_engine.Query.Docs.Cases.{ended_at, at_end, front-cons}
use piggy_engine.Query.Cursor.{Cursor, IsCursor}
use piggy_engine.Query.Exclusion.{ExclusionScorer, next, advance, is_end, cursor}
use piggy_engine.Query.Exclusion.Step.{remaining, remaining_pending, IsExclusion, Finds}
use piggy_engine.Query.Exclusion.Loop.{after_move}

module _ {M : Type 0} {cm : Cursor M} {Valid_main : M → Type 0} {docs_main : M → List ℕ}
    (im : IsCursor cm Valid_main docs_main) where
  module _ {E : Type 0} {ce : Cursor E} {Valid_excluded : E → Type 0} {docs_excluded : E → List ℕ}
      (ie : IsCursor ce Valid_excluded docs_excluded) where
    remaining_pending-IsAscending :
        (s : ExclusionScorer M E) → IsExclusion im ie s → IsAscending (remaining_pending im ie s)
    unfolding remaining_pending remaining
    remaining_pending-IsAscending s v =
        keep-IsAscending _ (docs_main s.main) (im.ascending s.main v.main_valid)

    is_end-remaining :
        (s : ExclusionScorer M E)
        → IsExclusion im ie s
        → is_end cm ce s ≡ not (is_nonempty (remaining_pending im ie s))
    unfolding is_end
    is_end-remaining s v =
        ap (λ (t : ℕ). t == invalid_doc) v.at_first
        ∙ ended_at (remaining_pending im ie s) (remaining_pending-IsAscending s v)

    advance-Finds :
        (s : ExclusionScorer M E) (t : ℕ)
        → IsExclusion im ie s
        → Finds im ie (advance cm ce t s) (drop_below t (remaining_pending im ie s))
    unfolding advance
    advance-Finds s t v =
        let r = cm.advance t s.main in
        let moves = im.advance_moves s.main t v.main_valid in
        let v' = im.advance_valid s.main t v.main_valid in
        let same : remaining im ie r.1 s.excluded ≡ drop_below t (remaining_pending im ie s) =
          unfold remaining remaining_pending in
          ap (keep (λ d. not (mem d (docs_excluded s.excluded)))) moves
          ∙ sym (drop_below-keep _ t (docs_main s.main) (im.ascending s.main v.main_valid)) in
        elim (Bool-cases (s.cur_doc == invalid_doc)) [
          | inl over ↦
              let none : remaining_pending im ie s ≡ [] =
                at_end _ (remaining_pending-IsAscending s v)
                  (sym v.at_first ∙ (==_iff _ _).0 over) in
              rw (over, none) (v, unfold drop_below in refl, unfold is_nonempty drop_below in refl)
          | inr going ↦
              rw (going, ← same)
                (after_move im ie r.0 r.1 s.excluded v' v.excluded_valid
                  (im.advance_returns s.main t v.main_valid ∙ ap is_nonempty (sym moves)))
        ]

    next-Finds :
        (s : ExclusionScorer M E) (d : ℕ) (ds : List ℕ)
        → IsExclusion im ie s
        → remaining_pending im ie s ≡ d ∷ ds
        → Finds im ie (next cm ce s) ds
    unfolding next
    next-Finds s d ds v e =
        let up : IsAscending (d ∷ ds) = rw e at (remaining_pending-IsAscending s v) in
        let here : s.cur_doc ≡ d =
          v.at_first ∙ ap head_or_invalid e ∙ unfold head_or_invalid in refl in
        let (es, at) = front-cons d (docs_main s.main) up.0 (sym v.at_main ∙ here) in
        let main_up : IsAscending (d ∷ es) = rw at at (im.ascending s.main v.main_valid) in
        let going : (s.cur_doc == invalid_doc) ≡ false = ground arith in
        let r = cm.next s.main in
        let moves : docs_main r.1 ≡ es = im.next_moves s.main d es v.main_valid at in
        let behind : es ≡ drop_below (d + 1) (docs_main s.main) =
          sym (ap (drop_below (d + 1)) at ∙ drop_below_suc d es main_up.1) in
        let e' : keep (λ d. not (mem d (docs_excluded s.excluded))) (docs_main s.main) ≡ d ∷ ds =
          unfold remaining_pending remaining in e in
        let same : remaining im ie r.1 s.excluded ≡ ds =
          unfold remaining in
          ap (keep (λ d. not (mem d (docs_excluded s.excluded)))) (moves ∙ behind)
          ∙ sym (drop_below-keep _ (d + 1) (docs_main s.main) (im.ascending s.main v.main_valid))
          ∙ ap (drop_below (d + 1)) e'
          ∙ drop_below_suc d ds up.1 in
        rw (going, ← same)
          (after_move im ie r.0 r.1 s.excluded (im.next_valid s.main d es v.main_valid at)
            v.excluded_valid
            (im.next_returns s.main d es v.main_valid at ∙ ap is_nonempty (sym moves)))

    -- `ExclusionScorer` keeps the contract of its two scorers, over the documents of the main one
    -- that the excluded one lacks: `next` and `advance` skip no such document and stop at no other.
    pub IsExclusion-IsCursor : IsCursor (cursor cm ce) (IsExclusion im ie) (remaining_pending im ie)
    IsExclusion-IsCursor = record {
      ascending = remaining_pending-IsAscending;
      doc_id_is = λ s v. v.at_first;
      is_end_is = is_end-remaining;
      next_valid = λ s d ds v e. (next-Finds s d ds v e).0;
      next_moves = λ s d ds v e. (next-Finds s d ds v e).1;
      next_returns = λ s d ds v e. (next-Finds s d ds v e).2;
      advance_valid = λ s t v. (advance-Finds s t v).0;
      advance_moves = λ s t v. (advance-Finds s t v).1;
      advance_returns = λ s t v. (advance-Finds s t v).2;
    }
