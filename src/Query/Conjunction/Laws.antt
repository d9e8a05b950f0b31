-- ===== src/Query/Conjunction/Laws.antt =====
-- A conjunction of cursors is a cursor over the documents that all of them have, so conjunctions nest.
use piggy_engine.Prelude.{ℕ, ◌+◌, List, [], ◌∷◌, false, not, ◌≡◌, refl, ap, sym, ◌∙◌, arith, subst}
use piggy_engine.Prelude.{◌==◌, Bool-cases, inl, inr}
use piggy_engine.Core.{invalid_doc}
use piggy_engine.Query.Docs.{IsAscending, keep, drop_below, head_or_invalid, is_nonempty}
use piggy_engine.Query.Docs.Laws.{keep-IsAscending, drop_below-keep, drop_below_suc}
use piggy_engine.Query.Docs.Cases.{ended_at, empty-nil}
use piggy_engine.Query.Cursor.{Cursor, IsCursor}
use piggy_engine.Query.Conjunction.{
  ConjunctionScorer, do_next, rounds, next, advance, is_end, cursor,
}
use piggy_engine.Query.Conjunction.Match.{common, holds}
use piggy_engine.Query.Conjunction.Loop.{
  common_pending, IsConjunction, Finds, ended-Finds, do_next-rounds,
}

module _ {S : Type 0} {c : Cursor S} {IsValid : S → Type 0} {pending : S → List ℕ}
    (ic : IsCursor c IsValid pending) where
  common-IsAscending :
      (s : ConjunctionScorer S) → IsConjunction ic s → IsAscending (common_pending ic s)
  unfolding common_pending common
  common-IsAscending s v = keep-IsAscending _ (pending s.lead) (ic.ascending s.lead v.lead_valid)

  -- The lead at or after a target has the documents of the conjunction at or after it.
  common-advance :
      (lead : S) (rest : List S) (t : ℕ)
      → IsValid lead
      → common ic (c.advance t lead).1 rest ≡ drop_below t (common ic lead rest)
  unfolding common
  common-advance lead rest t v =
      ap (keep (λ d. holds ic d rest)) (ic.advance_moves lead t v)
      ∙ sym (drop_below-keep (λ d. holds ic d rest) t (pending lead) (ic.ascending lead v))

  advance-Finds :
      (s : ConjunctionScorer S) (t : ℕ)
      → IsConjunction ic s
      → Finds ic (advance c t s) (drop_below t (common_pending ic s))
  unfolding advance
  advance-Finds s t v =
      let r = c.advance t s.lead in
      let v' = ic.advance_valid s.lead t v.lead_valid in
      let same : common ic r.1 s.rest ≡ drop_below t (common_pending ic s) =
        common-advance s.lead s.rest t v.lead_valid ∙ unfold common_pending in refl in
      elim (Bool-cases r.0) [
        | inl more ↦ rw more (
            subst (Finds ic (do_next c rounds r.1 s.rest)) same
              (do_next-rounds ic r.1 s.rest v' v.rest_valid))
        | inr over ↦
            let gone : pending r.1 ≡ [] =
              ic.advance_moves s.lead t v.lead_valid
              ∙ empty-nil _ (sym (ic.advance_returns s.lead t v.lead_valid) ∙ over) in
            let none : common ic r.1 s.rest ≡ [] = unfold common keep in rw gone in
            rw (over, ← same, none) (ended-Finds ic r.1 s.rest v' v.rest_valid none)
      ]

  next-Finds :
      (s : ConjunctionScorer S) (d : ℕ) (ds : List ℕ)
      → IsConjunction ic s
      → common_pending ic s ≡ d ∷ ds
      → Finds ic (next c s) ds
  unfolding next
  next-Finds s d ds v e =
      let here : s.cur_doc ≡ d =
        v.at_first ∙ ap head_or_invalid e ∙ unfold head_or_invalid in refl in
      let up : IsAscending (d ∷ ds) = rw e at (common-IsAscending s v) in
      let going : (s.cur_doc == invalid_doc) ≡ false = ground arith in
      rw going (
        subst (Finds ic (advance c (s.cur_doc + 1) s))
          (ap (drop_below (s.cur_doc + 1)) e ∙ rw here (drop_below_suc d ds up.1))
          (advance-Finds s (s.cur_doc + 1) v))

  is_end-common :
      (s : ConjunctionScorer S)
      → IsConjunction ic s
      → is_end c s ≡ not (is_nonempty (common_pending ic s))
  unfolding is_end
  is_end-common s v =
      ap (λ (t : ℕ). t == invalid_doc) v.at_first
      ∙ ended_at (common_pending ic s) (common-IsAscending s v)

  -- `ConjunctionScorer` keeps the contract of its children, over the documents of the first child
  -- that all the others have: `next` and `advance` skip no common document and stop at no other.
  pub IsConjunction-IsCursor : IsCursor (cursor c) (IsConjunction ic) (common_pending ic)
  IsConjunction-IsCursor = record {
    ascending = common-IsAscending;
    doc_id_is = λ s v. v.at_first;
    is_end_is = is_end-common;
    next_valid = λ s d ds v e. (next-Finds s d ds v e).0;
    next_moves = λ s d ds v e. (next-Finds s d ds v e).1;
    next_returns = λ s d ds v e. (next-Finds s d ds v e).2;
    advance_valid = λ s t v. (advance-Finds s t v).0;
    advance_moves = λ s t v. (advance-Finds s t v).1;
    advance_returns = λ s t v. (advance-Finds s t v).2;
  }
