-- ===== src/Query/Search/Disk.antt =====
-- A search for a term in the files of a segment: what was written is what is found.
use piggy_engine.Prelude.{
  ℕ, List, ◌∷◌, [], map, Bool, false, ◌≡◌, refl, sym, ap, ◌∙◌, subst, some, arith,
}
use piggy_engine.Prelude.{length, ◌==◌}
use piggy_engine.Core.{TermMeta}
use piggy_engine.Query.Docs.{keep}
use piggy_engine.Query.Floats.{Float32}
use piggy_engine.Query.Search.{drive, max_results}
use piggy_engine.Query.Search.Laws.{drive-pending}
use piggy_engine.Query.Term as Term
use piggy_engine.Query.Term.{Segment, TermScorer}
use piggy_engine.Query.Term.Laws.{Optional, optional_pending, term-IsCursor}
use piggy_engine.Store.PostingIterator as Disk
use piggy_engine.Store.PostingIterator.{DiskPostingIterator}
use piggy_engine.Store.PostingIterator.Laws.{disk-IsCursor}
use piggy_engine.Store.PostingIterator.Open.{IsStored, new-IsValid}
use piggy_engine.Store.PostingIterator.Valid.{IsValid, pending}

module _ (fl : Float32 ℕ) (seg : Segment ℕ DiskPostingIterator) where
  -- The iterator of a new term scorer is the one that the segment gives.
  iter-new :
      (c : ℕ) (field term : List ℕ) (upper_bound : ℕ)
      → seg.term_meta (c ∷ field) term ≡ some upper_bound
      → (Term.new fl Disk.iterator seg (c ∷ field) term).iter
        ≡ seg.posting_iterator (c ∷ field) term
  unfolding Term.new Term.found
  iter-new c field term upper_bound e =
      let named : (length (c ∷ field) == 0) ≡ false = ground arith in rw (named, e) refl

  -- A search for a term finds exactly the accepted documents of its posting list, in ascending order,
  -- where the segment opens the list in a file that holds what `compress` and `SkipList::serialize`
  -- wrote for these documents.
  pub search-disk :
      (fmax : ℕ → ℕ → ℕ) (docs norms content : List ℕ) (meta : TermMeta) (p0 p1 p2 p3 : ℕ)
      (accepts : ℕ → Bool) (c : ℕ) (field term : List ℕ) (upper_bound : ℕ)
      → IsStored fmax (p0 ∷ p1 ∷ p2 ∷ p3 ∷ []) docs norms content meta
      → seg.term_meta (c ∷ field) term ≡ some upper_bound
      → seg.posting_iterator (c ∷ field) term ≡ Disk.new (some content) meta
      → map
          (λ r. r.doc_id)
          (drive
            (Term.scorer fl Disk.iterator seg)
            accepts
            max_results
            (Term.new fl Disk.iterator seg (c ∷ field) term))
        ≡ keep accepts docs
  search-disk fmax docs norms content meta p0 p1 p2 p3 accepts c field term upper_bound stored e f =
      let root = Term.new fl Disk.iterator seg (c ∷ field) term in
      let (s, made, valid, all) = new-IsValid fmax docs norms content meta p0 p1 p2 p3 stored in
      let iter_is : root.iter ≡ some s = iter-new c field term upper_bound e ∙ f ∙ made in
      let root_valid : Optional (IsValid docs) root.iter =
        subst (Optional (IsValid docs)) (sym iter_is) valid in
      let root_docs : optional_pending (pending docs) root.iter ≡ docs =
        ap (optional_pending (pending docs)) iter_is ∙ unfold optional_pending in all in
      drive-pending (Term.scorer fl Disk.iterator seg)
        (term-IsCursor fl Disk.iterator (disk-IsCursor docs) seg) accepts root root_valid
      ∙ ap (keep accepts) root_docs
