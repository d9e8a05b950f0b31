-- ===== src/Query/Wand/Complete.antt =====
-- Until the heap is full, no document is passed over.
use piggy_engine.Prelude.{
  ℕ, suc, ◌<◌, List, [], ◌∷◌, Bool, true, false, ◌&&◌, ◌||◌, ◌≡◌, refl, sym, ap, subst, ◌∙◌, ◌⊎◌,
  inl, inr, arith, Option, some,
}
use piggy_engine.Prelude.{length, All, if◌then◌else◌, ◌==◌, ==_iff, Bool-cases}
use piggy_engine.Core.{invalid_doc}
use piggy_engine.Query.Docs.{IsAscending, mem, in_any}
use piggy_engine.Query.Cursor.{Scorer, IsCursor}
use piggy_engine.Query.Floats.{Float32}
use piggy_engine.Query.Wand.Iteration.{Hit}
use piggy_engine.Query.Wand.{
  Run, Library, Outcome, ended, going, doc_at, move_past, align_lagging_cursors, at_least,
  block_sum, score_at, find_pivot, score_pivot, path_a, pivot_round, sorted_round,
}
use piggy_engine.Query.Wand.Moves.{valid-All, going-cons}
use piggy_engine.Query.Wand.Heap.{IsLibrary}
use piggy_engine.Query.Wand.Hits.{docs_of}
use piggy_engine.Query.Wand.Documents.{in_children as ahead_in, move_past-in_children}
use piggy_engine.Query.Wand.Full.{Full, offer_room}
use piggy_engine.Query.Wand.Rounds.{Leads}

module _ {F S : Type 0} (fl : Float32 F) (sc : Scorer F S) (lib : Library F S)
    {IsValid : S → Type 0} {pending : S → List ℕ} (ic : IsCursor sc.cursor IsValid pending)
    (is_lib : IsLibrary sc lib) (known accepts : ℕ → Bool) (top_k : ℕ) where
  abbrev in_children : ℕ → List S → Bool
  in_children = ahead_in sc lib ic is_lib known

  abbrev moved :
      (d p : ℕ) (cs : List S)
      → All IsValid cs
      → in_children d cs ≡ true
      → (in_children d (move_past sc p cs) || (d == p)) ≡ true
  moved = move_past-in_children sc lib ic is_lib known

  module _ (use_block_max : Bool)
      (bound_not_negative : (s : S)
        → IsValid s
        → at_least fl sc lib (fl.add_f fl.zero_f (sc.max_score s)) fl.zero_f ≡ true)
      (block_not_negative : (cs : List S)
        → All IsValid cs
        → fl.lt_f (block_sum fl sc lib fl.zero_f cs) fl.zero_f ≡ false) where
    abbrev IsFull : Run F S → Type 0
    IsFull = Full fl sc lib is_lib known accepts top_k use_block_max

    -- Each document that counts is still ahead or already in the heap.
    pub record IsOpen (st : Run F S) : Type 0 where
      pub no_bound : st.theta ≡ fl.zero_f
      pub room : length st.heap < top_k
      pub found :
          (d : ℕ)
          → accepts d ≡ true
          → known d ≡ true
          → (in_children d st.children || mem d (docs_of st.heap)) ≡ true

    abbrev pub Found : Run F S → Type 0
    Found r = (d : ℕ) → accepts d ≡ true → known d ≡ true → mem d (docs_of r.heap) ≡ true

    abbrev pub Finds : Outcome F S → Type 0
    Finds (ended r) = Found r
    Finds (going r) = IsFull r ⊎ IsOpen r

    score_pivot-Finds :
        (p : ℕ) (cs : List S) (st : Run F S)
        → All IsValid cs
        → st.theta ≡ fl.zero_f
        → length st.heap < top_k
        → ((d : ℕ)
            → accepts d ≡ true
            → known d ≡ true
            → (in_children d cs || mem d (docs_of st.heap)) ≡ true)
        → let r = score_pivot fl sc lib accepts top_k p cs st in IsFull r ⊎ IsOpen r
    unfolding score_pivot mem
    score_pivot-Finds p cs st v unset room found =
        let hit : Hit F = record { doc_id = p; score = score_at fl sc lib p fl.zero_f cs } in
        elim (Bool-cases (accepts p)) [
          | inl taken ↦
              let (heap_is, or_bound) =
                offer_room fl sc lib is_lib known accepts top_k hit st.heap st room in
              elim or_bound [
                | inl full ↦ inl (rw taken (ap length heap_is ∙ full))
                | inr same ↦ elim (Bool-cases (suc (length st.heap) == top_k)) [
                  | inl full ↦
                      inl (
                        rw taken (ap length heap_is ∙ (==_iff (suc (length st.heap)) top_k).0 full))
                  | inr more ↦ inr (
                      rw taken (record {
                        no_bound = same ∙ unset;
                        room = ground (arith, ap length heap_is, room, more);
                        found = λ d a k.
                            rw heap_is (after_push d p cs (docs_of st.heap) v (found d a k));
                      }))
                ]
              ]
          | inr passed ↦ inr (
              rw passed (record {
                no_bound = unset;
                room = room;
                found = λ d a k.
                    not_pivot d p cs (docs_of st.heap) v (found d a k) (other_doc d p a passed);
              }))
        ]
      where
        after_push :
            (d p : ℕ) (cs : List S) (ds : List ℕ)
            → All IsValid cs
            → (in_children d cs || mem d ds) ≡ true
            → (in_children d (move_past sc p cs) || (d == p || mem d ds)) ≡ true
        after_push d p cs ds v h = elim (Bool-cases (in_children d cs)) [
          | inl ahead ↦ ground (arith, moved d p cs v ahead)
          | inr gone ↦ let behind : mem d ds ≡ true = rw gone at h in rw behind (ground arith)
        ]

        not_pivot :
            (d p : ℕ) (cs : List S) (ds : List ℕ)
            → All IsValid cs
            → (in_children d cs || mem d ds) ≡ true
            → (d == p) ≡ false
            → (in_children d (move_past sc p cs) || mem d ds) ≡ true
        not_pivot d p cs ds v h ne = elim (Bool-cases (in_children d cs)) [
          | inl ahead ↦ ground (arith, moved d p cs v ahead, ne)
          | inr gone ↦ let behind : mem d ds ≡ true = rw gone at h in rw behind (ground arith)
        ]

        other_doc : (d p : ℕ) → accepts d ≡ true → accepts p ≡ false → (d == p) ≡ false
        other_doc d p a no_p = elim (Bool-cases (d == p)) [
          | inl same ↦
              let e : accepts d ≡ accepts p = ap accepts ((==_iff d p).0 same) in cc (e, a, no_p)
          | inr other ↦ other
        ]

    first_pivot :
        (s : S) (ss : List S)
        → IsValid s
        → find_pivot fl sc lib fl.zero_f fl.zero_f (s ∷ ss) ≡ some 0
    unfolding find_pivot
    first_pivot s ss v = rw (bound_not_negative s v) refl

    path_a-Finds :
        (p : ℕ) (cs : List S) (st : Run F S)
        → All IsValid cs
        → st.theta ≡ fl.zero_f
        → length st.heap < top_k
        → ((d : ℕ)
            → accepts d ≡ true
            → known d ≡ true
            → (in_children d cs || mem d (docs_of st.heap)) ≡ true)
        → let r = path_a fl sc lib accepts top_k use_block_max p cs st in IsFull r ⊎ IsOpen r
    unfolding path_a
    path_a-Finds p cs st v unset room found =
        let sum = block_sum fl sc lib fl.zero_f cs in
        let stays : (use_block_max && fl.lt_f sum st.theta) ≡ false =
          ap (λ (t : F). use_block_max && fl.lt_f sum t) unset
          ∙ rw (block_not_negative cs v) (ground arith) in
        rw stays (score_pivot-Finds p cs st v unset room found)

    first_round-Finds :
        (s : S) (ss : List S) (st : Run F S)
        → All IsValid (s ∷ ss)
        → sc.cursor.doc_id s < invalid_doc
        → st.theta ≡ fl.zero_f
        → length st.heap < top_k
        → ((d : ℕ)
            → accepts d ≡ true
            → known d ≡ true
            → (in_children d (s ∷ ss) || mem d (docs_of st.heap)) ≡ true)
        → Finds (pivot_round fl sc lib accepts top_k use_block_max s ss (some 0) st)
    unfolding pivot_round doc_at
    first_round-Finds s ss st v lt unset room found =
        let p = sc.cursor.doc_id s in
        let there : (p == invalid_doc) ≡ false = ground (arith, lt) in
        let self : (p == p) ≡ true = (==_iff p p).1 refl in
        let on : Run F S = path_a fl sc lib accepts top_k use_block_max p (s ∷ ss) st in
        let behind : Run F S = record st { children = align_lagging_cursors sc 0 p (s ∷ ss) } in
        rw there (
          subst (λ (b : Bool). Finds (if b then going on else going behind)) (sym self)
            (path_a-Finds p (s ∷ ss) st v unset room found))

    pub sorted_round-Finds :
        (floor : ℕ) (cs : List S) (st : Run F S)
        → st.theta ≡ fl.zero_f
        → length st.heap < top_k
        → ((d : ℕ)
            → accepts d ≡ true
            → known d ≡ true
            → (in_children d cs || mem d (docs_of st.heap)) ≡ true)
        → (cs ≡ [])
          ⊎ ((s : S) × (ss : List S) × (cs ≡ s ∷ ss)
              × Leads fl sc lib ic is_lib known accepts top_k floor s ss)
        → Finds (sorted_round fl sc lib accepts top_k use_block_max cs st)
    unfolding sorted_round in_any
    sorted_round-Finds floor cs st unset room found (inl nobody) =
        rw nobody (λ d a k. rw nobody at (found d a k))
    sorted_round-Finds floor cs st unset room found (inr (s, ss, e, h)) =
        let (d0, ds, at, here) = going-cons sc ic known s h.0.0.valid h.1 in
        let asc : IsAscending (d0 ∷ ds) = subst IsAscending at (ic.ascending s h.0.0.valid) in
        let pivot : find_pivot fl sc lib st.theta fl.zero_f (s ∷ ss) ≡ some 0 =
          ap (λ (t : F). find_pivot fl sc lib t fl.zero_f (s ∷ ss)) unset
          ∙ first_pivot s ss h.0.0.valid in
        let found_now : (d : ℕ)
            → accepts d ≡ true
            → known d ≡ true
            → (in_children d (s ∷ ss) || mem d (docs_of st.heap)) ≡ true =
          subst
            (λ (l : List S).
              (d : ℕ)
              → accepts d ≡ true
              → known d ≡ true
              → (in_children d l || mem d (docs_of st.heap)) ≡ true)
            e found in
        let step =
          first_round-Finds s ss st (valid-All sc ic known floor (s ∷ ss) h.0)
            (omega (arith, asc.0, here)) unset room found_now in
        rw e (
          subst
            (λ (k : Option ℕ). Finds (pivot_round fl sc lib accepts top_k use_block_max s ss k st))
            (sym pivot) step)
