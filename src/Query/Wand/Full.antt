-- ===== src/Query/Wand/Full.antt =====
-- How the heap of `runWAND` gets full, and that it stays so.
use piggy_engine.Prelude.{
  ℕ, suc, ◌<◌, List, [], ◌∷◌, Bool, true, false, ◌&&◌, ◌||◌, ◌≡◌, refl, ap, ◌∙◌, ◌⊎◌, inl, inr,
  arith, Option, none, some,
}
use piggy_engine.Prelude.{length, if◌then◌else◌, ltb, ◌==◌, ==_iff, Bool-cases}
use piggy_engine.Core.{invalid_doc}
use piggy_engine.Query.Cursor.{Scorer}
use piggy_engine.Query.Floats.{Float32}
use piggy_engine.Query.Wand.Iteration.{Hit}
use piggy_engine.Query.Wand.{
  Run, Library, Outcome, ended, going, doc_at, align_lagging_cursors, block_sum, score_at,
  find_pivot, push, offer, score_pivot, path_a, pivot_round, sorted_round,
}
use piggy_engine.Query.Wand.Heap.{IsLibrary, length-pop}

module _ {F S : Type 0} (fl : Float32 F) (sc : Scorer F S) (lib : Library F S)
    (is_lib : IsLibrary sc lib) (known accepts : ℕ → Bool) (top_k : ℕ) where
  -- A full heap stays full.
  offer_full :
      (h : Hit F) (heap : List (Hit F)) (st : Run F S)
      → st.heap ≡ heap
      → length heap ≡ top_k
      → length (offer fl sc lib accepts top_k h heap st).heap ≡ top_k
  unfolding offer push
  offer_full h [] st at full =
      let none : ltb 0 top_k ≡ false = ground (arith, full) in rw none (ap length at ∙ full)
  offer_full h (e ∷ es) st at full =
      let t = lib.take_top e es in
      let size = length (e ∷ es) in
      let same : (size == top_k) ≡ true = (==_iff size top_k).1 full in
      elim (Bool-cases (ltb size top_k || fl.lt_f t.0.score h.score)) [
        | inl taken ↦
            rw (taken, same)
              (omega (arith, length-pop fl sc lib is_lib known accepts top_k e es, full))
        | inr refused ↦ rw refused (ap length at ∙ full)
      ]

  -- A heap with room takes the hit; the bound stays until the heap is full.
  pub offer_room :
      (h : Hit F) (heap : List (Hit F)) (st : Run F S)
      → length heap < top_k
      → let r = offer fl sc lib accepts top_k h heap st in
        (r.heap ≡ h ∷ heap) × ((length (h ∷ heap) ≡ top_k) ⊎ (r.theta ≡ st.theta))
  unfolding offer push
  offer_room h [] st room =
      let some_room : ltb 0 top_k ≡ true = ground (arith, room) in
      elim (Bool-cases (1 == top_k)) [
        | inl full ↦ rw some_room (refl, inl ((==_iff 1 top_k).0 full))
        | inr more ↦ rw (some_room, more) (refl, inr refl)
      ]
  offer_room h (e ∷ es) st room =
      let t = lib.take_top e es in
      let size = length (e ∷ es) in
      let taken : (ltb size top_k || fl.lt_f t.0.score h.score) ≡ true = ground (arith, room) in
      let not_full : (size == top_k) ≡ false = ground (arith, room) in
      elim (Bool-cases (suc size == top_k)) [
        | inl full ↦ rw (taken, not_full) (refl, inl ((==_iff (suc size) top_k).0 full))
        | inr more ↦ rw (taken, not_full, more) (refl, inr refl)
      ]

  module _ (use_block_max : Bool) where
    abbrev pub Full : Run F S → Type 0
    Full r = length r.heap ≡ top_k

    abbrev pub StaysFull : Outcome F S → Type 0
    StaysFull (ended r) = Full r
    StaysFull (going r) = Full r

    score_pivot-Full :
        (p : ℕ) (cs : List S) (st : Run F S)
        → Full st
        → Full (score_pivot fl sc lib accepts top_k p cs st)
    unfolding score_pivot
    score_pivot-Full p cs st full = elim (Bool-cases (accepts p)) [
      | inl taken ↦
          let hit : Hit F = record { doc_id = p; score = score_at fl sc lib p fl.zero_f cs } in
          rw taken (offer_full hit st.heap st refl full)
      | inr passed ↦ rw passed full
    ]

    path_a-Full :
        (p : ℕ) (cs : List S) (st : Run F S)
        → Full st
        → Full (path_a fl sc lib accepts top_k use_block_max p cs st)
    unfolding path_a
    path_a-Full p cs st full =
        elim (Bool-cases (use_block_max && fl.lt_f (block_sum fl sc lib fl.zero_f cs) st.theta)) [
          | inl skip ↦ rw skip full
          | inr score ↦ rw score (score_pivot-Full p cs st full)
        ]

    by_pivot :
        (s : S) (ss : List S) (pivot : Option ℕ) (st : Run F S)
        → Full st
        → StaysFull (pivot_round fl sc lib accepts top_k use_block_max s ss pivot st)
    unfolding pivot_round
    by_pivot s ss none st full = full
    by_pivot s ss (some i) st full =
        let p = doc_at sc i (s ∷ ss) in
        let on : Run F S = path_a fl sc lib accepts top_k use_block_max p (s ∷ ss) st in
        let behind : Run F S = record st { children = align_lagging_cursors sc i p (s ∷ ss) } in
        elim (Bool-cases (p == invalid_doc)) [
          | inl gone ↦ rw gone full
          | inr there ↦
              rw there
                (either (sc.cursor.doc_id s == p) on behind (path_a-Full p (s ∷ ss) st full) full)
        ]
      where
        either :
            (b : Bool) (on behind : Run F S)
            → Full on
            → Full behind
            → StaysFull (if b then going on else going behind)
        either true on behind h k = h
        either false on behind h k = k

    pub sorted_round-StaysFull :
        (cs : List S) (st : Run F S)
        → Full st
        → StaysFull (sorted_round fl sc lib accepts top_k use_block_max cs st)
    unfolding sorted_round
    sorted_round-StaysFull [] st full = full
    sorted_round-StaysFull (s ∷ ss) st full =
        by_pivot s ss (find_pivot fl sc lib st.theta fl.zero_f (s ∷ ss)) st full
