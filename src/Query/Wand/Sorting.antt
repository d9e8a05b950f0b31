-- ===== src/Query/Wand/Sorting.antt =====
-- From the heap to the hits: the order changes, the hits stay.
use piggy_engine.Prelude.{
  ℕ, zero, suc, ◌+◌, ◌≤◌, ◌<◌, List, [], ◌∷◌, Bool, true, not, ◌≡◌, refl, inl, inr, arith,
}
use piggy_engine.Prelude.{length, All, if◌then◌else◌, ltb, ◌==◌, ==_iff, Bool-cases}
use piggy_engine.Prelude.Counts.{count, count-all}
use piggy_engine.Core.{invalid_doc}
use piggy_engine.Query.Docs.{IsAscending, mem}
use piggy_engine.Query.Docs.Laws.{All-lt}
use piggy_engine.Query.Cursor.{Scorer}
use piggy_engine.Query.Floats.{Float32}
use piggy_engine.Query.Wand.Iteration.{Hit, insert_hit, sort_hits}
use piggy_engine.Query.Wand.{Library, pop_all}
use piggy_engine.Query.Wand.Heap.{IsLibrary}
use piggy_engine.Query.Wand.Hits.{docs_of}

module _ {F : Type 0} where
  count-insert_hit :
      (q : Hit F → Bool) (h : Hit F) (hs : List (Hit F))
      → count q (insert_hit h hs) ≡ count q (h ∷ hs)
  unfolding count insert_hit
  count-insert_hit q h [] = refl
  count-insert_hit q h (e ∷ es) = elim (Bool-cases (ltb h.doc_id e.doc_id)) [
    | inl low ↦ rw low refl
    | inr at ↦ rw at (omega (arith, count-insert_hit q h es))
  ]

  pub count-sort_hits : (q : Hit F → Bool) (hs : List (Hit F)) → count q (sort_hits hs) ≡ count q hs
  unfolding count sort_hits
  count-sort_hits q [] = refl
  count-sort_hits q (h ∷ hs) = omega (
    arith,
    count-insert_hit q h (sort_hits hs),
    count-sort_hits q hs,
    count-cons q h (sort_hits hs),
  )
    where
      count-cons :
          (q : Hit F → Bool) (h : Hit F) (l : List (Hit F))
          → count q (h ∷ l) ≡ (if q h then 1 else 0) + count q l
      count-cons q h l = refl

  All-insert_hit :
      (low : ℕ) (h : Hit F) (hs : List (Hit F))
      → low < h.doc_id
      → All (λ d. low < d) (docs_of hs)
      → All (λ d. low < d) (docs_of (insert_hit h hs))
  unfolding insert_hit
  All-insert_hit low h [] lt all = (lt, tt)
  All-insert_hit low h (e ∷ es) lt all = elim (Bool-cases (ltb h.doc_id e.doc_id)) [
    | inl before ↦ rw before (lt, all)
    | inr at ↦ rw at (all.0, All-insert_hit low h es lt all.1)
  ]

  -- A hit with a document of its own goes to its place.
  insert_hit-IsAscending :
      (h : Hit F) (hs : List (Hit F))
      → h.doc_id < invalid_doc
      → count (λ e. e.doc_id == h.doc_id) hs ≡ 0
      → IsAscending (docs_of hs)
      → IsAscending (docs_of (insert_hit h hs))
  unfolding insert_hit count
  insert_hit-IsAscending h [] lt absent sorted = (lt, tt, tt)
  insert_hit-IsAscending h (e ∷ es) lt absent sorted = elim (Bool-cases (ltb h.doc_id e.doc_id)) [
    | inl before ↦
        let low : h.doc_id < e.doc_id = ground (arith, before) in
        rw before (lt, (low, All-lt h.doc_id e.doc_id (docs_of es) (omega arith) sorted.1), sorted)
    | inr at ↦
        let after : e.doc_id < h.doc_id = ground (arith, at, absent) in
        rw at (
          sorted.0,
          All-insert_hit e.doc_id h es after sorted.1,
          insert_hit-IsAscending h es lt (ground (arith, absent)) sorted.2,
        )
  ]

  pub sort_hits-IsAscending :
      (hs : List (Hit F))
      → ((d : ℕ) → count (λ h. h.doc_id == d) hs ≤ 1)
      → count (λ h. not (ltb h.doc_id invalid_doc)) hs ≡ 0
      → IsAscending (docs_of (sort_hits hs))
  unfolding sort_hits count
  sort_hits-IsAscending [] once small = tt
  sort_hits-IsAscending (h ∷ hs) once small =
      let self : (h.doc_id == h.doc_id) ≡ true = (==_iff h.doc_id h.doc_id).1 refl in
      insert_hit-IsAscending h (sort_hits hs) (ground (arith, small))
        (omega (arith, count-sort_hits (λ e. e.doc_id == h.doc_id) hs, rw self at (once h.doc_id)))
        (sort_hits-IsAscending hs (λ d. omega (arith, once d)) (ground (arith, small)))

  -- A document of a hit is that of a hit that passes, where all hits pass.
  pub all_pass :
      (p : ℕ → Bool) (d : ℕ) (hs : List (Hit F))
      → count (λ h. not (p h.doc_id)) hs ≡ 0
      → mem d (docs_of hs) ≡ true
      → p d ≡ true
  unfolding count mem
  all_pass p d [] none here = cc
  all_pass p d (h ∷ hs) none here = elim (Bool-cases (d == h.doc_id)) [
    | inl same ↦ let e : d ≡ h.doc_id = (==_iff d h.doc_id).0 same in rw e (ground (arith, none))
    | inr other ↦ all_pass p d hs (ground (arith, none)) (rw other at here)
  ]

module _ {F S : Type 0} (fl : Float32 F) (sc : Scorer F S) (lib : Library F S)
    (is_lib : IsLibrary sc lib) (accepts : ℕ → Bool) (top_k : ℕ) (use_block_max : Bool) where
  -- The heap is popped until it is empty.
  pub count-pop_all :
      (q : Hit F → Bool) (rounds : ℕ) (heap : List (Hit F))
      → length heap ≤ rounds
      → count q (pop_all fl sc lib accepts top_k use_block_max rounds heap) ≡ count q heap
  unfolding pop_all count
  count-pop_all q zero [] enough = refl
  count-pop_all q zero (e ∷ es) enough = absurd (omega arith)
  count-pop_all q (suc rounds) [] enough = refl
  count-pop_all q (suc rounds) (e ∷ es) enough =
      let t = lib.take_top e es in
      let size : length t.1 ≡ length es =
        omega (arith, is_lib.top_count (λ h. true) e es, count-all t.1, count-all es) in
      omega
        (arith, is_lib.top_count q e es, count-pop_all q rounds t.1 (omega (arith, size, enough)))
