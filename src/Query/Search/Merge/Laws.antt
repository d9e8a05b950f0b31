-- ===== src/Query/Search/Merge/Laws.antt =====
-- `mergeTopK` keeps the first result of each document.
use piggy_engine.Prelude.{
  ℕ, suc, ◌+◌, ◌-◌, ◌≤◌, ◌<◌, List, [], ◌∷◌, ◌++◌, true, not, ◌&&◌, ◌≡◌, ◌≢◌, refl, sym, ap, ◌∙◌,
  arith,
}
use piggy_engine.Prelude.{
  length, ==_iff, take, take-nil, if◌then◌else◌, leb, ◌==◌, Bool-cases, inl, inr, length-append,
  append_assoc, append-nil, leb→lt,
}
use piggy_engine.Query.Docs.{mem}
use piggy_engine.Query.Search.Merge.{is_repeated, see, dedupe_loop, merge_top_k, put_together}

module _ {R : Type 0} (ext_id : R → ℕ) where
  -- how many of the results have this `ext_id`
  unfoldable pub occurrences : ℕ → List R → ℕ
  occurrences e [] = 0
  occurrences e (r ∷ rs) = (if ext_id r == e then 1 else 0) + occurrences e rs

  -- The results that are kept of a list, behind those of `earlier`: the ones without an `ext_id`,
  -- and the ones whose `ext_id` no earlier result has.
  unfoldable pub firsts : List R → List R → List R
  unfolding occurrences
  firsts earlier [] = []
  firsts earlier (r ∷ rs) =
      let rest = firsts (r ∷ earlier) rs in
      if not (ext_id r == 0) && not (occurrences (ext_id r) earlier == 0) then rest else r ∷ rest

  -- `seen` has the `ext_id`s but 0 of the earlier results.
  abbrev Saw : List ℕ → List R → Type 0
  Saw seen earlier = (e : ℕ) → e ≢ 0 → mem e seen ≡ not (occurrences e earlier == 0)

  Saw-nil : Saw [] []
  unfolding mem occurrences
  Saw-nil e ne = refl

  Saw-see :
      (seen : List ℕ) (earlier : List R) (r : R)
      → Saw seen earlier
      → Saw (see ext_id seen r) (r ∷ earlier)
  unfolding see mem occurrences
  Saw-see seen earlier r saw e ne = elim (Bool-cases (ext_id r == 0)) [
    | inl unnamed ↦ rw unnamed (ground (arith, ne, unnamed, saw e ne))
    | inr named ↦ rw named (ground (arith, named, saw e ne))
  ]

  is_repeated-Saw :
      (seen : List ℕ) (earlier : List R) (r : R)
      → Saw seen earlier
      → is_repeated ext_id seen r
        ≡ (not (ext_id r == 0) && not (occurrences (ext_id r) earlier == 0))
  unfolding is_repeated
  is_repeated-Saw seen earlier r saw = elim (Bool-cases (ext_id r == 0)) [
    | inl unnamed ↦ rw unnamed refl
    | inr named ↦ rw named (saw (ext_id r) (λ z. ground (arith, named, z)))
  ]

  -- A repeated result is already in `seen`.
  Saw-repeated :
      (seen : List ℕ) (earlier : List R) (r : R)
      → is_repeated ext_id seen r ≡ true
      → Saw seen earlier
      → Saw seen (r ∷ earlier)
  unfolding is_repeated occurrences
  Saw-repeated seen earlier r old saw e ne = elim (Bool-cases (ext_id r == e)) [
    | inl same ↦
        let e_is : ext_id r ≡ e = (==_iff (ext_id r) e).0 same in
        let there : mem (ext_id r) seen ≡ true = ground (arith, old) in
        rw same (sym (ap (λ (x : ℕ). mem x seen) e_is) ∙ there ∙ ground arith)
    | inr other ↦ rw other (ground (arith, saw e ne))
  ]

  dedupe_loop-firsts :
      (top_k : ℕ) (seen : List ℕ) (earlier rs deduped : List R)
      → Saw seen earlier
      → length deduped < top_k
      → dedupe_loop ext_id top_k seen rs deduped
        ≡ deduped ++ take (top_k - length deduped) (firsts earlier rs)
  unfolding dedupe_loop firsts
  dedupe_loop-firsts top_k seen earlier [] deduped saw h =
      sym (append-nil deduped)
      ∙ ap (λ (l : List R). deduped ++ l) (take-nil (top_k - length deduped))
  dedupe_loop-firsts top_k seen earlier (r ∷ rs) deduped saw h =
      let longer = length-append deduped (r ∷ []) in
      let test = is_repeated-Saw seen earlier r saw in
      elim (Bool-cases (not (ext_id r == 0) && not (occurrences (ext_id r) earlier == 0))) [
        | inl old ↦
            rw (test, old)
              (dedupe_loop-firsts top_k seen (r ∷ earlier) rs deduped
                (Saw-repeated seen earlier r (test ∙ old) saw) h)
        | inr fresh ↦
            let step : top_k - length deduped ≡ suc (top_k - length (deduped ++ r ∷ [])) =
              omega (arith, longer) in
            let saw' = Saw-see seen earlier r saw in
            elim (Bool-cases (leb top_k (length (deduped ++ r ∷ [])))) [
              | inl full ↦
                  let last : top_k - length (deduped ++ r ∷ []) ≡ 0 = ground arith in
                  rw (test, fresh, full, step, last) refl
              | inr room ↦
                  rw (test, fresh, room, step)
                    (dedupe_loop-firsts top_k (see ext_id seen r) (r ∷ earlier) rs
                        (deduped ++ r ∷ []) saw' (leb→lt top_k (length (deduped ++ r ∷ [])) room)
                      ∙ append_assoc deduped (r ∷ [])
                          (take (top_k - length (deduped ++ r ∷ [])) (firsts (r ∷ earlier) rs)))
            ]
      ]

  left_of : (n : ℕ) → n - 0 ≡ n
  left_of n = omega arith

  -- For a positive `top_k`, `mergeTopK` returns the first `top_k` of the results in the order of
  -- `std::sort` of which no earlier one has the same `ext_id`; results whose `ext_id` is 0 all count.
  pub merge_top_k-firsts :
      (sort_by_score : List R → List R) (top_k : ℕ) (per_seg_results : List (List R))
      → 1 ≤ top_k
      → merge_top_k ext_id sort_by_score top_k per_seg_results
        ≡ take top_k (firsts [] (sort_by_score (put_together ext_id per_seg_results)))
  unfolding merge_top_k
  merge_top_k-firsts sort_by_score top_k per_seg_results h =
      dedupe_loop-firsts top_k [] [] (sort_by_score (put_together ext_id per_seg_results)) []
        Saw-nil (omega arith)
      ∙ ap (λ (k : ℕ). take k (firsts [] (sort_by_score (put_together ext_id per_seg_results))))
          (left_of top_k)
