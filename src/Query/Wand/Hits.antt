-- ===== src/Query/Wand/Hits.antt =====
-- Once the constructor has run, a `WANDScorer` is a cursor over its hits, in the order of their
-- documents.
use piggy_engine.Prelude.{
  ℕ, zero, suc, ◌+◌, ◌≤◌, ◌<◌, List, [], ◌∷◌, map, Bool, true, false, not, ◌≡◌, refl, sym, ap,
  subst, ◌∙◌, inl, inr, arith,
}
use piggy_engine.Prelude.{length, drop, ltb, leb, Bool-cases, leb→le, leb→lt, drop-drop, drop_past}
use piggy_engine.Core.{invalid_doc}
use piggy_engine.Query.Docs.{IsAscending, drop_below, head_or_invalid, is_nonempty}
use piggy_engine.Query.Cursor.{IsCursor}
use piggy_engine.Memory.PostingIterator.Laws.{IsAscending-drop}
use piggy_engine.Query.Wand.Iteration.{
  Hit, WandScorer, first_doc, skipped, stand_at, next, advance, is_end, cursor,
}

tail-drop :
    {A : Type 0} (n : ℕ) (xs : List A) (y : A) (ys : List A)
    → drop n xs ≡ y ∷ ys
    → drop (n + 1) xs ≡ ys
tail-drop n xs y ys e = sym (drop-drop n 1 xs) ∙ ap (drop 1) e

module _ {F : Type 0} where
  abbrev pub docs_of : List (Hit F) → List ℕ
  docs_of hits = map (λ (h : Hit F). h.doc_id) hits

  unfoldable pub pending : WandScorer F → List ℕ
  pending s = docs_of (drop s.cur_idx s.doc_order_hits)

  pub record IsValid (s : WandScorer F) : Type 0 where
    pub sorted : IsAscending (docs_of s.doc_order_hits)
    pub current : s.cur_doc ≡ first_doc (drop s.cur_idx s.doc_order_hits)

  first_doc-head : (hits : List (Hit F)) → first_doc hits ≡ head_or_invalid (docs_of hits)
  unfolding first_doc head_or_invalid
  first_doc-head [] = refl
  first_doc-head (h ∷ hs) = refl

  docs_of-drop : (n : ℕ) (hits : List (Hit F)) → docs_of (drop n hits) ≡ drop n (docs_of hits)
  docs_of-drop zero hits = refl
  docs_of-drop (suc n) [] = refl
  docs_of-drop (suc n) (h ∷ hs) = docs_of-drop n hs

  drop-skipped :
      (target : ℕ) (hits : List (Hit F))
      → docs_of (drop (skipped target hits) hits) ≡ drop_below target (docs_of hits)
  unfolding skipped drop_below
  drop-skipped target [] = refl
  drop-skipped target (h ∷ hs) = elim (Bool-cases (ltb h.doc_id target)) [
    | inl low ↦ rw low (drop-skipped target hs)
    | inr at ↦ rw at refl
  ]

  nonempty-drop :
      (n : ℕ) (hits : List (Hit F))
      → is_nonempty (docs_of (drop n hits)) ≡ not (leb (length hits) n)
  unfolding is_nonempty
  nonempty-drop zero [] = ground arith
  nonempty-drop zero (h ∷ hs) = ground arith
  nonempty-drop (suc n) [] = ground arith
  nonempty-drop (suc n) (h ∷ hs) = ground (arith, nonempty-drop n hs)

  -- A result that stands at `i`.
  abbrev Stands : Bool × WandScorer F → WandScorer F → ℕ → Type 0
  Stands r s i =
      IsValid r.1
      × (pending r.1 ≡ docs_of (drop i s.doc_order_hits))
      × (r.0 ≡ is_nonempty (docs_of (drop i s.doc_order_hits)))

  past-Stands :
      (s : WandScorer F) (i k : ℕ)
      → IsValid s
      → length s.doc_order_hits ≤ i
      → length s.doc_order_hits ≤ k
      → Stands (false, record s { cur_doc = invalid_doc; cur_idx = k }) s i
  unfolding pending first_doc is_nonempty
  past-Stands s i k v le over =
      let gone : drop i s.doc_order_hits ≡ [] = drop_past i s.doc_order_hits le in
      let out : drop k s.doc_order_hits ≡ [] = drop_past k s.doc_order_hits over in
      (
        record { sorted = v.sorted; current = sym (ap first_doc out) },
        ap docs_of (out ∙ sym gone),
        sym (ap is_nonempty (ap docs_of gone)),
      )

  stand_at-Stands :
      (s : WandScorer F) (i : ℕ)
      → IsValid s
      → i < length s.doc_order_hits
      → Stands (true, stand_at i s) s i
  unfolding stand_at pending
  stand_at-Stands s i v lt = (
    record { sorted = v.sorted; current = refl },
    refl,
    sym (nonempty-drop i s.doc_order_hits ∙ ground arith),
  )

  next-Stands : (s : WandScorer F) → IsValid s → Stands (next s) s (s.cur_idx + 1)
  unfolding next
  next-Stands s v = elim (Bool-cases (leb (length s.doc_order_hits) (s.cur_idx + 1))) [
    | inl past ↦
        rw past (
          past-Stands s (s.cur_idx + 1) (length s.doc_order_hits) v (leb→le _ _ past) (omega arith))
    | inr more ↦ rw more (stand_at-Stands s (s.cur_idx + 1) v (leb→lt _ _ more))
  ]

  advance-Stands :
      (target : ℕ) (s : WandScorer F)
      → IsValid s
      → Stands (advance target s) s (s.cur_idx + skipped target (drop s.cur_idx s.doc_order_hits))
  unfolding advance
  advance-Stands target s v =
      let it = s.cur_idx + skipped target (drop s.cur_idx s.doc_order_hits) in
      elim (Bool-cases (leb (length s.doc_order_hits) it)) [
        | inl past ↦ rw past (past-Stands s it it v (leb→le _ _ past) (leb→le _ _ past))
        | inr more ↦ rw more (stand_at-Stands s it v (leb→lt _ _ more))
      ]

  after_next :
      (s : WandScorer F) (d : ℕ) (ds : List ℕ)
      → pending s ≡ d ∷ ds
      → docs_of (drop (s.cur_idx + 1) s.doc_order_hits) ≡ ds
  unfolding pending
  after_next s d ds at =
      docs_of-drop (s.cur_idx + 1) s.doc_order_hits
      ∙ tail-drop s.cur_idx (docs_of s.doc_order_hits) d ds
          (sym (docs_of-drop s.cur_idx s.doc_order_hits) ∙ at)

  after_advance :
      (target : ℕ) (s : WandScorer F)
      → docs_of
          (drop (s.cur_idx + skipped target (drop s.cur_idx s.doc_order_hits)) s.doc_order_hits)
        ≡ drop_below target (pending s)
  unfolding pending
  after_advance target s =
      let left = drop s.cur_idx s.doc_order_hits in
      ap docs_of (sym (drop-drop s.cur_idx (skipped target left) s.doc_order_hits))
      ∙ drop-skipped target left

  -- A `WANDScorer` is a cursor over the documents of its hits: `next` goes to the next one,
  -- `advance` to the first one at or after the target, and both return whether there is one.
  pub wand-IsCursor : IsCursor (cursor {F = F}) IsValid pending
  wand-IsCursor = record {
    ascending = λ s v.
        unfold pending in
        subst IsAscending (sym (docs_of-drop s.cur_idx s.doc_order_hits))
          (IsAscending-drop s.cur_idx (docs_of s.doc_order_hits) v.sorted);
    doc_id_is =
        λ s v. unfold pending in v.current ∙ first_doc-head (drop s.cur_idx s.doc_order_hits);
    is_end_is = λ s v. unfold pending is_end in end_is s;
    next_valid = λ s d ds v at. (next-Stands s v).0;
    next_moves = λ s d ds v at. (next-Stands s v).1 ∙ after_next s d ds at;
    next_returns = λ s d ds v at. (next-Stands s v).2 ∙ ap is_nonempty (after_next s d ds at);
    advance_valid = λ s t v. (advance-Stands t s v).0;
    advance_moves = λ s t v. (advance-Stands t s v).1 ∙ after_advance t s;
    advance_returns = λ s t v. (advance-Stands t s v).2 ∙ ap is_nonempty (after_advance t s);
  }
    where
      end_is :
          (s : WandScorer F)
          → leb (length s.doc_order_hits) s.cur_idx
            ≡ not (is_nonempty (docs_of (drop s.cur_idx s.doc_order_hits)))
      end_is s = rw (nonempty-drop s.cur_idx s.doc_order_hits) (ground arith)
