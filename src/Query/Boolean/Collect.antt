-- ===== src/Query/Boolean/Collect.antt =====
-- The loop of `createScorer` that sorts the clauses' scorers, and what it means for a document.
use piggy_engine.Prelude.{
  ℕ, List, [], ◌∷◌, ◌++◌, map, Bool, true, false, not, ◌&&◌, ◌||◌, Option, none, some, ◌≡◌, refl,
  sym, ap, ◌∙◌, arith, ◌⊎◌,
}
use piggy_engine.Prelude.{if◌then◌else◌, Bool-cases, inl, inr, append_assoc, append-nil}
use piggy_engine.Query.Docs.{mem, in_all, is_nonempty}
use piggy_engine.Query.Docs.Cases.{empty-nil}
use piggy_engine.Query.Boolean.{
  Occur, must, should, must_not, Query, Clauses, no_clauses, clause, Scorers, Sorted, sort_in, skip,
  place, and_then, create_scorer, collect,
}

-- What the scorers promise: `docs r` are the documents of a new scorer.
pub record HasDocs {R : Type 0} (make : Scorers R) (docs : R → List ℕ) : Type 0 where
  pub is_end_is : (r : R) → make.is_end r ≡ not (is_nonempty (docs r))
  pub conjunction_has :
      (d : ℕ) (r : R) (rs : List R)
      → mem d (docs (make.conjunction (r ∷ rs))) ≡ in_all d (map docs (r ∷ rs))
  pub exclusion_has :
      (d : ℕ) (r e : R)
      → mem d (docs (make.exclusion r e)) ≡ (mem d (docs r) && not (mem d (docs e)))

unfoldable pub in_any : ℕ → List (List ℕ) → Bool
in_any d [] = false
in_any d (l ∷ ls) = mem d l || in_any d ls

module _ {R : Type 0} (make : Scorers R) (docs : R → List ℕ) where
  -- Is the document an answer of the scorer that there is?
  unfoldable pub answers : ℕ → Option R → Bool
  answers d none = false
  answers d (some r) = mem d (docs r)

  -- Each MUST clause has the document; a MUST_NOT clause has it; there is a MUST clause.
  unfoldable pub all_must : ℕ → Clauses → Bool
  unfolding answers
  all_must d no_clauses = true
  all_must d (clause q must cs) = answers d (create_scorer make q) && all_must d cs
  all_must d (clause q should cs) = all_must d cs
  all_must d (clause q must_not cs) = all_must d cs

  unfoldable pub any_must_not : ℕ → Clauses → Bool
  unfolding answers
  any_must_not d no_clauses = false
  any_must_not d (clause q must cs) = any_must_not d cs
  any_must_not d (clause q should cs) = any_must_not d cs
  any_must_not d (clause q must_not cs) = answers d (create_scorer make q) || any_must_not d cs

  unfoldable pub has_must : Clauses → Bool
  has_must no_clauses = false
  has_must (clause q must cs) = true
  has_must (clause q should cs) = has_must cs
  has_must (clause q must_not cs) = has_must cs

  unfoldable pub keep_living : Option R → List R → List R
  keep_living none rs = rs
  keep_living (some r) rs = if make.is_end r then rs else r ∷ rs

  -- The scorers of the SHOULD clauses that have documents, in order.
  unfoldable pub living_should : Clauses → List R
  unfolding keep_living
  living_should no_clauses = []
  living_should (clause q must cs) = living_should cs
  living_should (clause q should cs) = keep_living (create_scorer make q) (living_should cs)
  living_should (clause q must_not cs) = living_should cs

  unfoldable pub nonempty_scorers : List R → Bool
  nonempty_scorers [] = false
  nonempty_scorers (r ∷ rs) = true

  -- What the loop makes of the scorers `sl`, for the document `d`.
  pub record IsCollected (d : ℕ) (sl out : Sorted R) (cs : Clauses) : Type 0 where
    pub musts :
        in_all d (map docs out.must_scorers)
        ≡ (in_all d (map docs sl.must_scorers) && all_must d cs)
    pub excluded :
        in_any d (map docs out.must_not_scorers)
        ≡ (in_any d (map docs sl.must_not_scorers) || any_must_not d cs)
    pub shoulds : out.should_scorers ≡ sl.should_scorers ++ living_should cs
    pub some_must :
        nonempty_scorers out.must_scorers ≡ (nonempty_scorers sl.must_scorers || has_must cs)

  abbrev pub Collected : ℕ → Sorted R → Clauses → Option (Sorted R) → Type 0
  Collected d sl cs none = (all_must d cs ≡ false) × (has_must cs ≡ true)
  Collected d sl cs (some out) = IsCollected d sl out cs

  in_all_snoc :
      (d : ℕ) (xs : List R) (r : R)
      → in_all d (map docs (xs ++ r ∷ [])) ≡ (in_all d (map docs xs) && mem d (docs r))
  unfolding in_all
  in_all_snoc d [] r = ground arith
  in_all_snoc d (x ∷ xs) r = ground (arith, in_all_snoc d xs r)

  in_any_snoc :
      (d : ℕ) (xs : List R) (r : R)
      → in_any d (map docs (xs ++ r ∷ [])) ≡ (in_any d (map docs xs) || mem d (docs r))
  unfolding in_any
  in_any_snoc d [] r = ground arith
  in_any_snoc d (x ∷ xs) r = ground (arith, in_any_snoc d xs r)

  nonempty_snoc : (xs : List R) (r : R) → nonempty_scorers (xs ++ r ∷ []) ≡ true
  unfolding nonempty_scorers
  nonempty_snoc [] r = refl
  nonempty_snoc (x ∷ xs) r = refl

  -- A clause whose scorer has no documents.
  record IsDead (o : Option R) : Type 0 where
    answers_none : (d : ℕ) → answers d o ≡ false
    placed : (occur : Occur) (sl : Sorted R) → place make occur o sl ≡ skip occur sl
    kept : (rs : List R) → keep_living o rs ≡ rs

  record IsAlive (o : Option R) (r : R) : Type 0 where
    answers_as : (d : ℕ) → answers d o ≡ mem d (docs r)
    placed : (occur : Occur) (sl : Sorted R) → place make occur o sl ≡ some (sort_in occur r sl)
    kept : (rs : List R) → keep_living o rs ≡ r ∷ rs

  module _ (h : HasDocs make docs) where
    scorer-cases : (o : Option R) → IsDead o ⊎ ((r : R) × IsAlive o r)
    unfolding answers place keep_living
    scorer-cases none =
        inl (record { answers_none = λ d. refl; placed = λ occur sl. refl; kept = λ rs. refl })
    scorer-cases (some r) = elim (Bool-cases (make.is_end r)) [
      | inl ended ↦
          let over : not (is_nonempty (docs r)) ≡ true = sym (h.is_end_is r) ∙ ended in
          let no_docs : docs r ≡ [] = empty-nil (docs r) (ground arith) in
          inl (record {
            answers_none = λ d. ap (mem d) no_docs ∙ unfold mem in refl;
            placed = λ occur sl. rw ended refl;
            kept = λ rs. rw ended refl;
          })
      | inr going ↦ inr (
        r,
        record {
          answers_as = λ d. refl;
          placed = λ occur sl. rw going refl;
          kept = λ rs. rw going refl;
        },
      )
    ]

    module _ (d : ℕ) (q : Query) (cs : Clauses) (sl : Sorted R) where
      dead_must :
          IsDead (create_scorer make q)
          → (all_must d (clause q must cs) ≡ false) × (has_must (clause q must cs) ≡ true)
      unfolding all_must has_must
      dead_must dead = (ground (arith, dead.answers_none d), refl)

      dead_should :
          (o : Option (Sorted R))
          → IsDead (create_scorer make q)
          → Collected d sl cs o
          → Collected d sl (clause q should cs) o
      unfolding all_must has_must any_must_not living_should
      dead_should none dead c = c
      dead_should (some out) dead c = record {
        musts = c.musts;
        excluded = c.excluded;
        shoulds =
            c.shoulds
            ∙ ap (λ (rs : List R). sl.should_scorers ++ rs) (sym (dead.kept (living_should cs)));
        some_must = c.some_must;
      }

      dead_not :
          (o : Option (Sorted R))
          → IsDead (create_scorer make q)
          → Collected d sl cs o
          → Collected d sl (clause q must_not cs) o
      unfolding all_must has_must any_must_not living_should
      dead_not none dead c = c
      dead_not (some out) dead c = record {
        musts = c.musts;
        excluded = ground (arith, c.excluded, dead.answers_none d);
        shoulds = c.shoulds;
        some_must = c.some_must;
      }

      alive_must :
          (o : Option (Sorted R)) (r : R)
          → IsAlive (create_scorer make q) r
          → Collected d (sort_in must r sl) cs o
          → Collected d sl (clause q must cs) o
      unfolding all_must has_must any_must_not living_should sort_in
      alive_must none r alive c = (ground (arith, c.0), refl)
      alive_must (some out) r alive c = record {
        musts = ground (arith, c.musts, in_all_snoc d sl.must_scorers r, alive.answers_as d);
        excluded = c.excluded;
        shoulds = c.shoulds;
        some_must = ground (arith, c.some_must, nonempty_snoc sl.must_scorers r);
      }

      alive_should :
          (o : Option (Sorted R)) (r : R)
          → IsAlive (create_scorer make q) r
          → Collected d (sort_in should r sl) cs o
          → Collected d sl (clause q should cs) o
      unfolding all_must has_must any_must_not living_should sort_in
      alive_should none r alive c = c
      alive_should (some out) r alive c = record {
        musts = c.musts;
        excluded = c.excluded;
        shoulds =
            c.shoulds
            ∙ append_assoc sl.should_scorers (r ∷ []) (living_should cs)
            ∙ ap (λ (rs : List R). sl.should_scorers ++ rs) (sym (alive.kept (living_should cs)));
        some_must = c.some_must;
      }

      alive_not :
          (o : Option (Sorted R)) (r : R)
          → IsAlive (create_scorer make q) r
          → Collected d (sort_in must_not r sl) cs o
          → Collected d sl (clause q must_not cs) o
      unfolding all_must has_must any_must_not living_should sort_in
      alive_not none r alive c = c
      alive_not (some out) r alive c = record {
        musts = c.musts;
        excluded =
            ground (arith, c.excluded, in_any_snoc d sl.must_not_scorers r, alive.answers_as d);
        shoulds = c.shoulds;
        some_must = c.some_must;
      }

    pub collect-Collected :
        (d : ℕ) (cs : Clauses) (sl : Sorted R) → Collected d sl cs (collect make cs sl)
    unfolding collect skip and_then all_must any_must_not has_must living_should
    collect-Collected d no_clauses sl = record {
      musts = ground arith;
      excluded = ground arith;
      shoulds = sym (append-nil sl.should_scorers);
      some_must = ground arith;
    }
    collect-Collected d (clause q must cs) sl = elim (scorer-cases (create_scorer make q)) [
      | inl dead ↦ rw (dead.placed must sl) (dead_must d q cs sl dead)
      | inr (r, alive) ↦ rw (alive.placed must sl) (
          alive_must d q cs sl (collect make cs (sort_in must r sl)) r alive
            (collect-Collected d cs (sort_in must r sl)))
    ]
    collect-Collected d (clause q should cs) sl = elim (scorer-cases (create_scorer make q)) [
      | inl dead ↦
          rw (dead.placed should sl)
            (dead_should d q cs sl (collect make cs sl) dead (collect-Collected d cs sl))
      | inr (r, alive) ↦ rw (alive.placed should sl) (
          alive_should d q cs sl (collect make cs (sort_in should r sl)) r alive
            (collect-Collected d cs (sort_in should r sl)))
    ]
    collect-Collected d (clause q must_not cs) sl = elim (scorer-cases (create_scorer make q)) [
      | inl dead ↦
          rw (dead.placed must_not sl)
            (dead_not d q cs sl (collect make cs sl) dead (collect-Collected d cs sl))
      | inr (r, alive) ↦ rw (alive.placed must_not sl) (
          alive_not d q cs sl (collect make cs (sort_in must_not r sl)) r alive
            (collect-Collected d cs (sort_in must_not r sl)))
    ]
