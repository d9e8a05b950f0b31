-- ===== src/Query/Conjunction/Loop.antt =====
-- `doNext`: the loop of rounds, with enough fuel.
use piggy_engine.Prelude.{
  ℕ, zero, suc, ◌<◌, List, [], ◌∷◌, Bool, true, false, not, ◌≡◌, refl, ap, sym, ◌∙◌, arith, subst,
}
use piggy_engine.Prelude.{All, Bool-cases, inl, inr, length}
use piggy_engine.Query.Docs.{keep, head_or_invalid, is_nonempty}
use piggy_engine.Query.Docs.Laws.{length-IsAscending}
use piggy_engine.Query.Docs.Cases.{nonempty-cons, empty-nil}
use piggy_engine.Query.Cursor.{Cursor, IsCursor}
use piggy_engine.Query.Conjunction.{
  Round, matched, moved, exhausted, match_loop, do_next, ConjunctionScorer, ended, rounds,
}
use piggy_engine.Query.Conjunction.Match.{Outcome, common, holds, holds_nil, match_loop-Outcome}

module _ {S : Type 0} {c : Cursor S} {IsValid : S → Type 0} {pending : S → List ℕ}
    (ic : IsCursor c IsValid pending) where
  -- The documents that a conjunction has still to come.
  unfoldable pub common_pending : ConjunctionScorer S → List ℕ
  common_pending s = common ic s.lead s.rest

  pub record IsConjunction (s : ConjunctionScorer S) : Type 0 where
    pub lead_valid : IsValid s.lead
    pub rest_valid : All IsValid s.rest
    pub at_first : s.cur_doc ≡ head_or_invalid (common_pending s)

  abbrev pub Finds : Bool × ConjunctionScorer S → List ℕ → Type 0
  Finds r l = IsConjunction r.1 × (common_pending r.1 ≡ l) × (r.0 ≡ is_nonempty l)

  pub ended-Finds :
      (lead : S) (rest : List S)
      → IsValid lead
      → All IsValid rest
      → common ic lead rest ≡ []
      → Finds (ended c lead rest) []
  unfolding common_pending is_nonempty
  ended-Finds lead rest v vs none = (
    record {
      lead_valid = v;
      rest_valid = vs;
      at_first = unfold common_pending head_or_invalid in rw none;
    },
    none,
    refl,
  )

  matched-Finds :
      (lead : S) (ls : List ℕ) (target : ℕ) (ss rest : List S)
      → IsValid lead
      → All IsValid ss
      → pending lead ≡ target ∷ ls
      → holds ic target ss ≡ true
      → common ic lead ss ≡ common ic lead rest
      → Finds (true, record { lead = lead; rest = ss; cur_doc = target }) (common ic lead rest)
  matched-Finds lead ls target ss rest v vs at here same =
      let first : common ic lead ss ≡ target ∷ keep (λ d. holds ic d ss) ls =
        unfold common keep in rw (at, here) in
      (
        record {
          lead_valid = v;
          rest_valid = vs;
          at_first = unfold common_pending head_or_invalid in rw first;
        },
        unfold common_pending in same,
        rw (← same, first) (unfold is_nonempty in refl),
      )

  next_round :
      (fuel target : ℕ) (lead : S) (ls : List ℕ) (rest : List S) (r : Round S)
      → IsValid lead
      → pending lead ≡ target ∷ ls
      → Outcome ic target lead rest r
      → ((l : S) (ss : List S)
          → IsValid l
          → All IsValid ss
          → length (pending l) < length (pending lead)
          → Finds (do_next c fuel l ss) (common ic l ss))
      → Finds
          (elim r [
            | matched l ss ↦ (true, record { lead = l; rest = ss; cur_doc = target })
            | moved l ss ↦ do_next c fuel l ss
            | exhausted l ss ↦ ended c l ss
          ])
          (common ic lead rest)
  unfolding Outcome
  next_round fuel target lead ls rest (matched l ss) v at o ih =
      rw o.0 (matched-Finds lead ls target ss rest v o.1 at o.2 (rw o.0 at o.3))
  next_round fuel target lead ls rest (moved l ss) v at o ih =
      subst (Finds (do_next c fuel l ss)) o.2 (ih l ss o.0 o.1 o.3)
  next_round fuel target lead ls rest (exhausted l ss) v at o ih =
      rw o.3 (ended-Finds l ss o.0 o.1 o.2)

  -- `doNext` finds the first document that all children have, and loses none.
  pub do_next-Finds :
      (fuel : ℕ) (lead : S) (rest : List S)
      → IsValid lead
      → All IsValid rest
      → length (pending lead) < fuel
      → Finds (do_next c fuel lead rest) (common ic lead rest)
  unfolding do_next
  do_next-Finds zero lead rest v vs enough = absurd (omega arith)
  do_next-Finds (suc fuel) lead rest v vs enough = elim (Bool-cases (is_nonempty (pending lead))) [
    | inl some ↦
        let (d, ds, at) = nonempty-cons (pending lead) some in
        let going : c.is_end lead ≡ false = ic.is_end_is lead v ∙ ap not some in
        let doc : c.doc_id lead ≡ d =
          ic.doc_id_is lead v ∙ ap head_or_invalid at ∙ unfold head_or_invalid in refl in
        let target = c.doc_id lead in
        let front : pending lead ≡ target ∷ ds = at ∙ ap (λ (t : ℕ). t ∷ ds) (sym doc) in
        rw going (
          next_round fuel target lead ds rest (match_loop c target lead [] rest) v front
            (match_loop-Outcome ic target lead ds v front rest [] rest tt vs (λ d le. refl)
              (holds_nil ic target))
            (λ l ss vl vss less. do_next-Finds fuel l ss vl vss (omega arith)))
    | inr gone ↦
        let over : c.is_end lead ≡ true = ic.is_end_is lead v ∙ ap not gone in
        let none : common ic lead rest ≡ [] =
          unfold common keep in rw (empty-nil (pending lead) gone) in
        rw (over, none) (ended-Finds lead rest v vs none)
  ]

  rounds-enough : (lead : S) → IsValid lead → length (pending lead) < rounds
  unfolding rounds
  rounds-enough lead v = omega (arith, length-IsAscending (pending lead) (ic.ascending lead v))

  -- With the fuel that the methods give it.
  pub do_next-rounds :
      (lead : S) (rest : List S)
      → IsValid lead
      → All IsValid rest
      → Finds (do_next c rounds lead rest) (common ic lead rest)
  do_next-rounds lead rest v vs = do_next-Finds rounds lead rest v vs (rounds-enough lead v)
