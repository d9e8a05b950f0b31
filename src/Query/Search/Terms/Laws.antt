-- ===== src/Query/Search/Terms/Laws.antt =====
-- `searchAND` finds the documents that have all the terms of the query.
use piggy_engine.Prelude.{
  ℕ, List, [], ◌∷◌, map, Bool, true, false, not, ◌&&◌, ◌≡◌, refl, ap, ◌∙◌, arith, inl, inr, ◌⊎◌,
  Option, none, some,
}
use piggy_engine.Prelude.{All, Bool-cases}
use piggy_engine.Query.Docs.{mem, keep, is_nonempty, in_all}
use piggy_engine.Query.Docs.Laws.{mem-keep}
use piggy_engine.Query.Docs.Cases.{empty-nil}
use piggy_engine.Query.Cursor.{Cursor, IsCursor}
use piggy_engine.Query.Search.Zigzag.Laws.{zigzag-in_all}
use piggy_engine.Query.Search.Terms.{
  FieldTerm, Reader, has_any, expand, open_one, open_all, intersect, find_all, intersection,
}
use piggy_engine.Query.Search.Terms.Expand.{every, owed, answers, is_known, owed-expand}

answers-false : (fs : List (List ℕ)) (ft : FieldTerm) → answers fs (λ _. false) ft ≡ false
unfolding answers every has_any
answers-false [] ft = ground arith
answers-false (f ∷ fs) ft = ground arith

module _ {S : Type 0} {c : Cursor S} {IsValid : S → Type 0} {pending : S → List ℕ}
    (ic : IsCursor c IsValid pending) (seg : Reader S) where
  -- the posting list of the term has the document
  abbrev pub has : ℕ → FieldTerm → Bool
  has d ft = mem d (pending (open_one seg ft))

  in_all-every :
      (d : ℕ) (fts : List FieldTerm)
      → in_all d (map pending (map (open_one seg) fts)) ≡ every (has d) fts
  unfolding in_all every
  in_all-every d [] = refl
  in_all-every d (ft ∷ fts) = ap (λ (b : Bool). has d ft && b) (in_all-every d fts)

  module _ (valid : (ft : FieldTerm) → IsValid (open_one seg ft)) where
    iterators-IsValid : (fts : List FieldTerm) → All IsValid (map (open_one seg) fts)
    iterators-IsValid [] = tt
    iterators-IsValid (ft ∷ fts) = (valid ft, iterators-IsValid fts)

    -- Either a list is empty, and no document has all terms, or there is an iterator for each term.
    open_all-opens :
        (fts : List FieldTerm)
        → ((open_all seg c fts ≡ none) × ((d : ℕ) → every (has d) fts ≡ false))
          ⊎ (open_all seg c fts ≡ some (map (open_one seg) fts))
    unfolding open_all every
    open_all-opens [] = inr refl
    open_all-opens (ft ∷ fts) =
        let it = open_one seg ft in
        elim (Bool-cases (is_nonempty (pending it))) [
          | inl some_docs ↦
              let going : c.is_end it ≡ false = ic.is_end_is it (valid ft) ∙ ap not some_docs in
              elim (open_all-opens fts) [
                | inl (e, out) ↦ inl (rw (going, e) refl, λ d. rw (out d) (ground arith))
                | inr e ↦ inr (rw (going, e) refl)
              ]
          | inr gone ↦
              let over : c.is_end it ≡ true = ic.is_end_is it (valid ft) ∙ ap not gone in
              inl (
                rw over refl,
                λ d.
                    let out : has d ft ≡ false =
                      ap (mem d) (empty-nil (pending it) gone) ∙ unfold mem in refl in
                    rw out refl,
              )
        ]

    module _ (accepts : ℕ → Bool) where
      -- The loop over at least one term, in any order.
      intersect-every :
          (d : ℕ) (fts : List FieldTerm)
          → every (λ _. false) fts ≡ false
          → mem d (intersect seg c accepts (open_all seg c fts)) ≡ (every (has d) fts && accepts d)
      unfolding intersect every
      intersect-every d [] some_term = ground (arith, some_term)
      intersect-every d (ft ∷ fts) some_term = elim (open_all-opens (ft ∷ fts)) [
        | inl (e, out) ↦ rw (e, out d) (unfold mem in refl)
        | inr e ↦
            let driver = open_one seg ft in
            let rest = map (open_one seg) fts in
            let common : ℕ → Bool = λ k. in_all k (map pending rest) in
            rw e (
              ap (mem d) (zigzag-in_all ic accepts driver rest (valid ft) (iterators-IsValid fts))
              ∙ mem-keep d accepts (keep common (pending driver))
              ∙ ap (λ (b : Bool). b && accepts d)
                  (mem-keep d common (pending driver)
                    ∙ ap (λ (b : Bool). has d ft && b) (in_all-every d fts)
                    ∙ unfold every in refl))
      ]

      module _ (order : List FieldTerm → List FieldTerm)
          (keeps : (q : FieldTerm → Bool) (fts : List FieldTerm)
            → every q (order fts) ≡ every q fts) where
        find_all-owed :
            (d : ℕ) (expanded : Option (List FieldTerm))
            → owed (λ _. false) expanded ≡ false
            → mem d (find_all seg c accepts order expanded) ≡ (owed (has d) expanded && accepts d)
        unfolding find_all owed every
        find_all-owed d none some_term = unfold mem in refl
        find_all-owed d (some []) some_term = ground (arith, some_term)
        find_all-owed d (some (ft ∷ fts)) some_term =
            intersect-every d (order (ft ∷ fts)) (keeps (λ _. false) (ft ∷ fts) ∙ some_term)
            ∙ ap (λ (b : Bool). b && accepts d) (keeps (has d) (ft ∷ fts))

        -- `searchAND` finds exactly the accepted documents that have all the terms of a query that
        -- has one: a term with a field in this field, one without in each of the default fields,
        -- and where there are no default fields in the merged dictionary. It does so in whatever
        -- order the terms are put, where a term that the dictionary misses has no documents and
        -- each default field has a name.
        pub intersection-answers :
            (fs : List (List ℕ)) (ft : FieldTerm) (fts : List FieldTerm) (d : ℕ)
            → All (λ f. is_nonempty f ≡ true) fs
            → ((t : FieldTerm) → is_known seg t ≡ false → pending (open_one seg t) ≡ [])
            → mem d (intersection seg c accepts order fs (ft ∷ fts))
              ≡ (every (answers fs (has d)) (ft ∷ fts) && accepts d)
        unfolding intersection
        intersection-answers fs ft fts d named missing =
            let some_term : owed (λ _. false) (expand seg fs (ft ∷ fts)) ≡ false =
              owed-expand seg (λ _. false) (λ t lost. refl) fs (ft ∷ fts) named
              ∙ unfold every in rw (answers-false fs ft) refl in
            let all_terms : owed (has d) (expand seg fs (ft ∷ fts))
                ≡ every (answers fs (has d)) (ft ∷ fts) =
              owed-expand seg (has d) (λ t lost. ap (mem d) (missing t lost) ∙ unfold mem in refl)
                fs (ft ∷ fts) named in
            find_all-owed d (expand seg fs (ft ∷ fts)) some_term
            ∙ ap (λ (b : Bool). b && accepts d) all_terms
