-- ===== src/Query/Boolean/Laws.antt =====
-- What the scorer of a `BooleanQuery` finds.
use piggy_engine.Prelude.{
  ℕ, List, [], ◌∷◌, map, Bool, false, not, ◌&&◌, Option, none, some, ◌≡◌, refl, ap, ◌∙◌, arith,
}
use piggy_engine.Prelude.{if◌then◌else◌}
use piggy_engine.Query.Docs.{mem, in_all}
use piggy_engine.Query.Boolean.{
  boolean_query, Clauses, Scorers, Sorted, nothing_sorted, root_of, exclude, exclude_all, finish,
  create_scorer, collect,
}
use piggy_engine.Query.Boolean.Collect.{
  HasDocs, in_any, answers, all_must, any_must_not, has_must, living_should, nonempty_scorers,
  Collected, collect-Collected,
}

module _ {R : Type 0} (make : Scorers R) (docs : R → List ℕ) where
  -- What the SHOULD clauses give where there is no MUST clause.
  unfoldable pub wand_answers : ℕ → List R → Bool
  wand_answers d [] = false
  wand_answers d (r ∷ rs) = mem d (docs (make.wand (r ∷ rs)))

  module _ (h : HasDocs make docs) where
    answers-exclude :
        (d : ℕ) (es : List R) (r : R)
        → mem d (docs (exclude make r es)) ≡ (mem d (docs r) && not (in_any d (map docs es)))
    unfolding exclude in_any
    answers-exclude d [] r = ground arith
    answers-exclude d (e ∷ es) r =
        ground (arith, answers-exclude d es (make.exclusion r e), h.exclusion_has d r e)

    answers-exclude_all :
        (d : ℕ) (o : Option R) (es : List R)
        → answers make docs d (exclude_all make o es)
          ≡ (answers make docs d o && not (in_any d (map docs es)))
    unfolding answers exclude_all
    answers-exclude_all d none es = ground arith
    answers-exclude_all d (some r) es = answers-exclude d es r

    answers-root_of :
        (d : ℕ) (ms ss : List R)
        → answers make docs d (root_of make ms ss)
          ≡ (if nonempty_scorers make docs ms then in_all d (map docs ms) else wand_answers d ss)
    unfolding answers root_of nonempty_scorers wand_answers in_all
    answers-root_of d [] [] = refl
    answers-root_of d [] (s ∷ ss) = refl
    answers-root_of d (m ∷ []) ss = ground arith
    answers-root_of d (m ∷ n ∷ ms) ss = h.conjunction_has d m (n ∷ ms)

    answers-finish :
        (d : ℕ) (cs : Clauses) (o : Option (Sorted R))
        → Collected make docs d nothing_sorted cs o
        → answers make docs d (finish make o) ≡ (
            (if has_must make docs cs
              then all_must make docs d cs
              else wand_answers d (living_should make docs cs))
            && not (any_must_not make docs d cs))
    unfolding finish answers in_all in_any nonempty_scorers
    answers-finish d cs none c = rw (c.1, c.0) refl
    answers-finish d cs (some out) c =
        answers-exclude_all d (root_of make out.must_scorers out.should_scorers)
          out.must_not_scorers
        ∙ ap (λ (b : Bool). b && not (in_any d (map docs out.must_not_scorers)))
            (answers-root_of d out.must_scorers out.should_scorers)
        ∙ rw (c.some_must, c.musts, c.excluded, c.shoulds) refl

    -- A document is an answer of the scorer that `BooleanQuery::createScorer` returns exactly when
    -- every MUST clause has it, or, with no MUST clause, the WAND scorer over the SHOULD clauses that
    -- have documents, and no MUST_NOT clause has it; `nullptr`, and a clause with no scorer or an
    -- exhausted one, answers nothing.
    pub answers-create_scorer :
        (d : ℕ) (cs : Clauses)
        → answers make docs d (create_scorer make (boolean_query cs)) ≡ (
            (if has_must make docs cs
              then all_must make docs d cs
              else wand_answers d (living_should make docs cs))
            && not (any_must_not make docs d cs))
    unfolding create_scorer
    answers-create_scorer d cs =
        answers-finish d cs (collect make cs nothing_sorted)
          (collect-Collected make docs h d cs nothing_sorted)
