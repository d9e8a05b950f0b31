-- ===== src/Query/Conjunction/Start.antt =====
-- The constructor of `ConjunctionScorer`.
use piggy_engine.Prelude.{ℕ, ◌≤◌, List, [], ◌∷◌, true, false, ◌≡◌, refl, sym, ◌∙◌, arith}
use piggy_engine.Prelude.{All, Bool-cases, inl, inr}
use piggy_engine.Query.Docs.{mem, keep, head_or_invalid}
use piggy_engine.Query.Docs.Laws.{keep_none}
use piggy_engine.Query.Docs.Cases.{empty-nil, not-true}
use piggy_engine.Query.Cursor.{Cursor, IsCursor}
use piggy_engine.Query.Conjunction.{any_end, new}
use piggy_engine.Query.Conjunction.Match.{common, holds, holds-cons}
use piggy_engine.Query.Conjunction.Loop.{common_pending, IsConjunction, do_next-rounds}

module _ {S : Type 0} {c : Cursor S} {IsValid : S → Type 0} {pending : S → List ℕ}
    (ic : IsCursor c IsValid pending) where
  end-nil : (s : S) → IsValid s → c.is_end s ≡ true → pending s ≡ []
  end-nil s v over = empty-nil _ (not-true _ (sym (ic.is_end_is s v) ∙ over))

  any_end-holds :
      (d : ℕ) (ss : List S) → All IsValid ss → any_end c ss ≡ true → holds ic d ss ≡ false
  unfolding any_end
  any_end-holds d [] v h = cc
  any_end-holds d (s ∷ ss) v h = elim (Bool-cases (c.is_end s)) [
    | inl over ↦
        let none : mem d (pending s) ≡ false = unfold mem in rw (end-nil s v.0 over) in
        holds-cons ic d s ss ∙ rw none
    | inr going ↦
        let h' : any_end c ss ≡ true = rw going at h in
        holds-cons ic d s ss ∙ ground (arith, any_end-holds d ss v.1 h')
  ]

  All-zero : (ds : List ℕ) → All (λ d. 0 ≤ d) ds
  All-zero [] = tt
  All-zero (d ∷ ds) = (omega arith, All-zero ds)

  any_end-common :
      (lead : S) (rest : List S)
      → IsValid lead
      → All IsValid rest
      → any_end c (lead ∷ rest) ≡ true
      → common ic lead rest ≡ []
  unfolding any_end common
  any_end-common lead rest v vs h = elim (Bool-cases (c.is_end lead)) [
    | inl over ↦ unfold keep in rw (end-nil lead v over)
    | inr going ↦
        let h' : any_end c rest ≡ true = rw going at h in
        keep_none _ 0 (pending lead) (All-zero (pending lead)) (λ d le. any_end-holds d rest vs h')
  ]

  -- A new `ConjunctionScorer` over valid children is valid, is at the first document that all of
  -- them have (at `INVALID_DOC` where there is none), and still has all such documents to come.
  pub new-IsConjunction :
      (lead : S) (rest : List S)
      → IsValid lead
      → All IsValid rest
      → IsConjunction ic (new c lead rest)
        × (common_pending ic (new c lead rest) ≡ common ic lead rest)
  unfolding new common_pending
  new-IsConjunction lead rest v vs = elim (Bool-cases (any_end c (lead ∷ rest))) [
    | inl over ↦
        let none = any_end-common lead rest v vs over in
        rw over (
          record {
            lead_valid = v;
            rest_valid = vs;
            at_first = unfold common_pending head_or_invalid in rw none;
          },
          refl,
        )
    | inr going ↦
        let found = do_next-rounds ic lead rest v vs in
        rw going (found.0, unfold common_pending in found.1)
  ]
