-- ===== src/Query/Search/Zigzag/Laws.antt =====
-- The loop of `searchAND` finds the documents that all the iterators have.
use piggy_engine.Prelude.{
  ℕ, zero, suc, ◌+◌, ◌<◌, List, [], ◌∷◌, map, Bool, true, false, not, ◌≡◌, refl, sym, ap, ◌∙◌,
  subst, arith, inl, inr,
}
use piggy_engine.Prelude.{length, if◌then◌else◌, All, Bool-cases}
use piggy_engine.Query.Docs.{IsAscending, keep, drop_below, head_or_invalid, is_nonempty, in_all}
use piggy_engine.Query.Docs.Laws.{drop_below_suc, length-IsAscending}
use piggy_engine.Query.Docs.Cases.{nonempty-cons, empty-nil}
use piggy_engine.Query.Cursor.{Cursor, IsCursor}
use piggy_engine.Query.Search.Zigzag.{
  Pass, done, moved, matched, catch_up_all, round, zigzag, max_rounds,
}
use piggy_engine.Query.Search.Zigzag.Round.{commons, Passes, catch_up_all-Passes}

keep-cons :
    (p : ℕ → Bool) (d : ℕ) (ds : List ℕ)
    → keep p (d ∷ ds) ≡ (if p d then d ∷ keep p ds else keep p ds)
unfolding keep
keep-cons p d ds = refl

keep-here : (p : ℕ → Bool) (d : ℕ) (ds : List ℕ) → p d ≡ true → keep p (d ∷ ds) ≡ d ∷ keep p ds
unfolding keep
keep-here p d ds e = rw e refl

module _ {S : Type 0} {c : Cursor S} {IsValid : S → Type 0} {pending : S → List ℕ}
    (ic : IsCursor c IsValid pending) where
  round-keep :
      (accepts : ℕ → Bool) (again : S → List S → List ℕ) (driver : S) (t : ℕ) (ts : List ℕ)
      (rest : List S) (p : Pass S)
      → IsValid driver
      → pending driver ≡ t ∷ ts
      → ((d : S) (r : List S)
          → IsValid d
          → All IsValid r
          → length (pending d) < length (pending driver)
          → again d r ≡ keep accepts (keep (commons ic r) (pending d)))
      → Passes ic driver t ts rest p
      → round c accepts again driver p ≡ keep accepts (keep (commons ic rest) (pending driver))
  unfolding round
  round-keep accepts again driver t ts rest done v at go h =
      sym (ap (keep accepts) h ∙ unfold keep in refl)
  round-keep accepts again driver t ts rest (moved jumped rest') v at go h =
      go jumped rest' h.0 h.1 h.2 ∙ sym (ap (keep accepts) h.3)
  round-keep accepts again driver t ts rest (matched rest') v at go h =
      let here : c.doc_id driver ≡ t =
        ic.doc_id_is driver v ∙ ap head_or_invalid at ∙ unfold head_or_invalid in refl in
      let on = (c.advance (t + 1) driver).1 in
      let sorted : IsAscending (t ∷ ts) = subst IsAscending at (ic.ascending driver v) in
      let left : pending on ≡ ts =
        ic.advance_moves driver (t + 1) v
        ∙ ap (drop_below (t + 1)) at
        ∙ drop_below_suc t ts sorted.1 in
      let found : keep (commons ic rest) (pending driver) ≡ t ∷ keep (commons ic rest') ts =
        h.1 ∙ ap (keep (commons ic rest')) at ∙ keep-here (commons ic rest') t ts h.2 in
      let later : again on rest' ≡ keep accepts (keep (commons ic rest') ts) =
        go on rest' (ic.advance_valid driver (t + 1) v) h.0
          (omega (arith, ap length at, ap length left))
        ∙ ap (λ (l : List ℕ). keep accepts (keep (commons ic rest') l)) left in
      ap
        (λ (d : ℕ).
          if accepts d
          then d ∷ again (c.advance (d + 1) driver).1 rest'
          else again (c.advance (d + 1) driver).1 rest')
        here
      ∙ ap (λ (l : List ℕ). if accepts t then t ∷ l else l) later
      ∙ sym (ap (keep accepts) found ∙ keep-cons accepts t (keep (commons ic rest') ts))

  zigzag-keep :
      (accepts : ℕ → Bool) (fuel : ℕ) (driver : S) (rest : List S)
      → IsValid driver
      → All IsValid rest
      → length (pending driver) < fuel
      → zigzag c accepts fuel driver rest ≡ keep accepts (keep (commons ic rest) (pending driver))
  unfolding zigzag
  zigzag-keep accepts zero driver rest v vs enough = absurd (omega arith)
  zigzag-keep accepts (suc fuel) driver rest v vs enough =
      elim (Bool-cases (is_nonempty (pending driver))) [
        | inl some ↦
            let (t, ts, at) = nonempty-cons (pending driver) some in
            let going : c.is_end driver ≡ false = ic.is_end_is driver v ∙ ap not some in
            let here : c.doc_id driver ≡ t =
              ic.doc_id_is driver v ∙ ap head_or_invalid at ∙ unfold head_or_invalid in refl in
            let again : S → List S → List ℕ = λ d r. zigzag c accepts fuel d r in
            let passes =
              catch_up_all-Passes ic driver t ts v at [] rest tt vs (unfold in_all in refl) in
            let one : round c accepts again driver (catch_up_all c t driver [] rest)
                ≡ keep accepts (keep (commons ic rest) (pending driver)) =
              round-keep accepts again driver t ts rest (catch_up_all c t driver [] rest) v at
                (λ d r vd vr less. zigzag-keep accepts fuel d r vd vr (omega (arith, less, enough)))
                passes in
            rw (going, here) one
        | inr gone ↦
            let over : c.is_end driver ≡ true = ic.is_end_is driver v ∙ ap not gone in
            let no_docs : keep accepts (keep (commons ic rest) (pending driver)) ≡ [] =
              ap (λ (l : List ℕ). keep accepts (keep (commons ic rest) l))
                (empty-nil (pending driver) gone)
              ∙ unfold keep in refl in
            rw over (sym no_docs)
      ]

  -- The loop of `searchAND` ends, and puts into `intersection` exactly the accepted documents of its
  -- driver that all the other iterators have, in ascending order, for every kind of iterator that
  -- keeps the contract.
  pub zigzag-in_all :
      (accepts : ℕ → Bool) (driver : S) (rest : List S)
      → IsValid driver
      → All IsValid rest
      → zigzag c accepts max_rounds driver rest
        ≡ keep accepts (keep (λ d. in_all d (map pending rest)) (pending driver))
  zigzag-in_all accepts driver rest v vs =
      let fits = length-IsAscending (pending driver) (ic.ascending driver v) in
      zigzag-keep accepts max_rounds driver rest v vs (unfold max_rounds in omega (arith, fits))
