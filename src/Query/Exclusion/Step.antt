-- ===== src/Query/Exclusion/Step.antt =====
-- One round of `skipExcluded`: how it stops, and how it brings the excluded scorer up.
use piggy_engine.Prelude.{ℕ, ◌≤◌, List, [], ◌∷◌, Bool, false, not, ◌≡◌, refl, ap, sym, ◌∙◌, subst}
use piggy_engine.Prelude.{ltb, All, Bool-cases, inl, inr, ltb→le}
use piggy_engine.Query.Docs.{mem, keep, head_or_invalid, is_nonempty}
use piggy_engine.Query.Docs.Laws.{mem-drop_below, keep_congr, All-head, drop_below-ge}
use piggy_engine.Query.Docs.Cases.{empty-nil, none_before}
use piggy_engine.Query.Cursor.{Cursor, IsCursor}
use piggy_engine.Query.Exclusion.{ExclusionScorer, catch_up, stop, ended}

module _ {M : Type 0} {cm : Cursor M} {Valid_main : M → Type 0} {docs_main : M → List ℕ}
    (im : IsCursor cm Valid_main docs_main) where
  module _ {E : Type 0} {ce : Cursor E} {Valid_excluded : E → Type 0} {docs_excluded : E → List ℕ}
      (ie : IsCursor ce Valid_excluded docs_excluded) where
    -- the documents of the main scorer that the excluded one has not
    unfoldable pub remaining : M → E → List ℕ
    remaining m e = keep (λ d. not (mem d (docs_excluded e))) (docs_main m)

    -- The documents that an exclusion has still to come.
    unfoldable pub remaining_pending : ExclusionScorer M E → List ℕ
    remaining_pending s = remaining s.main s.excluded

    pub record IsExclusion (s : ExclusionScorer M E) : Type 0 where
      pub main_valid : Valid_main s.main
      pub excluded_valid : Valid_excluded s.excluded
      pub at_main : s.cur_doc ≡ head_or_invalid (docs_main s.main)
      pub at_first : s.cur_doc ≡ head_or_invalid (remaining_pending s)

    abbrev pub Finds : Bool × ExclusionScorer M E → List ℕ → Type 0
    Finds r l = IsExclusion r.1 × (remaining_pending r.1 ≡ l) × (r.0 ≡ is_nonempty l)

    pub ended-Finds :
        (m : M) (e : E)
        → Valid_main m
        → Valid_excluded e
        → docs_main m ≡ []
        → Finds (ended cm ce m e) []
    unfolding remaining_pending is_nonempty
    ended-Finds m e vm ve gone =
        let none : remaining m e ≡ [] = unfold remaining keep in rw gone in
        (
          record {
            main_valid = vm;
            excluded_valid = ve;
            at_main = unfold head_or_invalid in rw gone;
            at_first = unfold remaining_pending head_or_invalid in rw none;
          },
          none,
          refl,
        )

    pub stop-Finds :
        (m : M) (e : E) (d : ℕ) (ds : List ℕ)
        → Valid_main m
        → Valid_excluded e
        → docs_main m ≡ d ∷ ds
        → mem d (docs_excluded e) ≡ false
        → Finds (stop cm ce m e d) (remaining m e)
    unfolding remaining_pending
    stop-Finds m e d ds vm ve at free =
        let first : remaining m e ≡ d ∷ keep (λ d. not (mem d (docs_excluded e))) ds =
          unfold remaining keep in rw (at, free) in
        (
          record {
            main_valid = vm;
            excluded_valid = ve;
            at_main = unfold head_or_invalid in rw at;
            at_first = unfold remaining_pending head_or_invalid in rw first;
          },
          refl,
          rw first (unfold is_nonempty in refl),
        )

    -- Where the excluded scorer is behind, its documents before the current one do not matter.
    remaining-advance :
        (m : M) (e : E) (d : ℕ) (ds : List ℕ)
        → Valid_main m
        → Valid_excluded e
        → docs_main m ≡ d ∷ ds
        → remaining m (ce.advance d e).1 ≡ remaining m e
    unfolding remaining
    remaining-advance m e d ds vm ve at =
        let low : All (λ e. d ≤ e) (docs_main m) =
          subst (All (λ e. d ≤ e)) (sym at) (All-head d ds (rw at at (im.ascending m vm))) in
        keep_congr _ _ d (docs_main m) low (λ x le.
          ap not (ap (mem x) (ie.advance_moves e d ve) ∙ mem-drop_below x d (docs_excluded e) le))

    pub record CaughtUp (d : ℕ) (m : M) (e : E) (r : Bool × E) : Type 0 where
      pub valid : Valid_excluded r.1
      pub low : All (λ e. d ≤ e) (docs_excluded r.1)
      pub same : remaining m r.1 ≡ remaining m e
      pub at_end : r.0 ≡ false → docs_excluded r.1 ≡ []

    pub catch_up-CaughtUp :
        (m : M) (e : E) (d : ℕ) (ds : List ℕ)
        → Valid_main m
        → Valid_excluded e
        → docs_main m ≡ d ∷ ds
        → CaughtUp d m e (catch_up cm ce d e)
    unfolding catch_up
    catch_up-CaughtUp m e d ds vm ve at = elim (Bool-cases (ltb (ce.doc_id e) d)) [
      | inl behind ↦
          let moves = ie.advance_moves e d ve in
          rw behind (record {
            valid = ie.advance_valid e d ve;
            low =
                subst (All (λ e. d ≤ e)) (sym moves)
                  (drop_below-ge d (docs_excluded e) (ie.ascending e ve));
            same = remaining-advance m e d ds vm ve at;
            at_end = λ over. moves ∙ empty-nil _ (sym (ie.advance_returns e d ve) ∙ over);
          })
      | inr reached ↦ rw reached (record {
        valid = ve;
        low =
            none_before d (docs_excluded e) (ie.ascending e ve)
              (subst (λ t. d ≤ t) (ie.doc_id_is e ve) (ltb→le (ce.doc_id e) d reached));
        same = refl;
        at_end = cc;
      })
    ]
