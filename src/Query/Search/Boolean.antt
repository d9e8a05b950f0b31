-- ===== src/Query/Search/Boolean.antt =====
-- A search through the real iterators: conjunctions and exclusions of posting lists in memory.
use piggy_engine.Prelude.{ℕ, List, map, Bool, not, ◌≡◌, refl, ap, ◌∙◌}
use piggy_engine.Prelude.{All}
use piggy_engine.Query.Docs.{mem, in_all, keep}
use piggy_engine.Query.Cursor.{Scorer, IsCursor}
use piggy_engine.Query.Floats.{Float32}
use piggy_engine.Query.Conjunction as Conjunction
use piggy_engine.Query.Conjunction.Match.{common, holds}
use piggy_engine.Query.Conjunction.Laws.{IsConjunction-IsCursor}
use piggy_engine.Query.Conjunction.Start.{new-IsConjunction}
use piggy_engine.Query.Exclusion as Exclusion
use piggy_engine.Query.Exclusion.Step.{remaining}
use piggy_engine.Query.Exclusion.Laws.{IsExclusion-IsCursor}
use piggy_engine.Query.Exclusion.Start.{new-IsExclusion}
use piggy_engine.Query.Search.{drive, max_results}
use piggy_engine.Query.Search.Laws.{drive-pending}

module _ {F S : Type 0} (fl : Float32 F) (sc : Scorer F S) {IsValid : S → Type 0}
    {pending : S → List ℕ} (ic : IsCursor sc.cursor IsValid pending) where
  -- A search that is driven by a new `ConjunctionScorer` over valid children finds the accepted documents of its first
  -- child that all its other children have, in order.
  pub search-conjunction :
      (accepts : ℕ → Bool) (lead : S) (rest : List S)
      → IsValid lead
      → All IsValid rest
      → map
          (λ r. r.doc_id)
          (drive
            (Conjunction.scorer fl sc)
            accepts
            max_results
            (Conjunction.new sc.cursor lead rest))
        ≡ keep accepts (keep (λ d. in_all d (map pending rest)) (pending lead))
  search-conjunction accepts lead rest v vs =
      let made = new-IsConjunction ic lead rest v vs in
      drive-pending (Conjunction.scorer fl sc) (IsConjunction-IsCursor ic) accepts _ made.0
      ∙ ap (keep accepts) (made.1 ∙ unfold common holds in refl)

module _ {F M E : Type 0} (sm : Scorer F M) {Valid_main : M → Type 0} {docs_main : M → List ℕ}
    (im : IsCursor sm.cursor Valid_main docs_main) where
  module _ (se : Scorer F E) {Valid_excluded : E → Type 0} {docs_excluded : E → List ℕ}
      (ie : IsCursor se.cursor Valid_excluded docs_excluded) where
    -- A search that is driven by a new `ExclusionScorer` over valid scorers finds the accepted documents of the main
    -- scorer that the excluded one lacks, in order.
    pub search-exclusion :
        (accepts : ℕ → Bool) (m : M) (e : E)
        → Valid_main m
        → Valid_excluded e
        → map
            (λ r. r.doc_id)
            (drive
              (Exclusion.scorer sm se)
              accepts
              max_results
              (Exclusion.new sm.cursor se.cursor m e))
          ≡ keep accepts (keep (λ d. not (mem d (docs_excluded e))) (docs_main m))
    search-exclusion accepts m e vm ve =
        let made = new-IsExclusion im ie m e vm ve in
        drive-pending (Exclusion.scorer sm se) (IsExclusion-IsCursor im ie) accepts _ made.0
        ∙ ap (keep accepts) (made.1 ∙ unfold remaining in refl)
