-- ===== src/Query/Wand/Rounds.antt =====
-- A round of `runWAND` keeps what the hits are, and moves a child on.
use piggy_engine.Prelude.{
  ℕ, zero, suc, ◌+◌, ◌≤◌, ◌<◌, List, [], ◌∷◌, Bool, true, false, ◌&&◌, ◌≡◌, refl, sym, subst, inl,
  inr, arith, Option, none, some,
}
use piggy_engine.Prelude.{All, if◌then◌else◌, ltb, ◌==◌, ==_iff, Bool-cases}
use piggy_engine.Core.{invalid_doc}
use piggy_engine.Query.Docs.{IsAscending, mem}
use piggy_engine.Query.Cursor.{Scorer, IsCursor}
use piggy_engine.Query.Floats.{Float32}
use piggy_engine.Query.Wand.Iteration.{Hit}
use piggy_engine.Query.Wand.{
  Run, Library, Outcome, ended, going, doc_at, catch_up, align_lagging_cursors, skip_block,
  past_pivot, move_past, block_sum, score_at, score_pivot, path_a, pivot_round,
}
use piggy_engine.Query.Wand.Moves.{
  total, left, valid-All, going-cons, advance-left_lt, catch_up-IsGood, past_block-IsGood,
  past_block-left_lt, AllGood, align-AllGood, skip_block-AllGood, move_past-AllGood,
}
use piggy_engine.Query.Wand.Heap.{IsLibrary, is_fit, IsHeap, IsHeap-mono, offer-IsHeap}

mem-first : (d : ℕ) (ds : List ℕ) → mem d (d ∷ ds) ≡ true
unfolding mem
mem-first d ds = let self : (d == d) ≡ true = (==_iff d d).1 refl in rw self refl

pub first-true : (a b : Bool) → (a && b) ≡ true → a ≡ true
first-true true b h = refl
first-true false b h = cc

module _ {F S : Type 0} (fl : Float32 F) (sc : Scorer F S) (lib : Library F S)
    {IsValid : S → Type 0} {pending : S → List ℕ} (ic : IsCursor sc.cursor IsValid pending)
    (is_lib : IsLibrary sc lib) (known accepts : ℕ → Bool) (top_k : ℕ) where
  abbrev pub Heaped : ℕ → List (Hit F) → Type 0
  Heaped = IsHeap fl sc lib is_lib known accepts top_k

  abbrev pub Good : ℕ → List S → Type 0
  Good = AllGood sc ic known

  abbrev pub measure : List S → ℕ
  measure = total (left sc ic known)

  pub record IsRun (st : Run F S) : Type 0 where
    pub floor : ℕ
    pub good : Good floor st.children
    pub heaped : Heaped floor st.heap

  -- The children as a round finds them, the first with the least document.
  abbrev pub Leads : ℕ → S → List S → Type 0
  Leads floor s ss =
      Good floor (s ∷ ss)
      × (sc.cursor.is_end s ≡ false)
      × All (λ t. sc.cursor.doc_id s ≤ sc.cursor.doc_id t) ss

  first_below :
      (floor : ℕ) (s : S) (ss : List S) → Leads floor s ss → sc.cursor.doc_id s < invalid_doc
  first_below floor s ss h =
      let g = h.0.0 in
      let (d, ds, at, here) = going-cons sc ic known s g.valid h.1 in
      let asc : IsAscending (d ∷ ds) = subst IsAscending at (ic.ascending s g.valid) in
      omega (arith, asc.0, here)

  doc_at-le :
      (d i : ℕ) (cs : List S)
      → d < invalid_doc
      → All (λ t. d ≤ sc.cursor.doc_id t) cs
      → d ≤ doc_at sc i cs
  unfolding doc_at
  doc_at-le d i [] lt h = omega (arith, lt)
  doc_at-le d zero (s ∷ ss) lt h = h.0
  doc_at-le d (suc i) (s ∷ ss) lt h = doc_at-le d i ss lt h.1

  score_pivot-IsRun :
      (floor : ℕ) (s : S) (ss : List S) (st : Run F S)
      → Leads floor s ss
      → Heaped floor st.heap
      → let r = score_pivot fl sc lib accepts top_k (sc.cursor.doc_id s) (s ∷ ss) st in
        IsRun r × (measure r.children < measure (s ∷ ss))
  unfolding score_pivot move_past total
  score_pivot-IsRun floor s ss st h heaped =
      let p = sc.cursor.doc_id s in
      let g = h.0.0 in
      let (d, ds, at, here) = going-cons sc ic known s g.valid h.1 in
      let asc : IsAscending (d ∷ ds) = subst IsAscending at (ic.ascending s g.valid) in
      let above : All (λ e. floor ≤ e) (d ∷ ds) = subst (All (λ e. floor ≤ e)) at g.above in
      let hit : Hit F = record { doc_id = p; score = score_at fl sc lib p fl.zero_f (s ∷ ss) } in
      let in_first : mem p (pending s) ≡ true = rw (at, here) (mem-first d ds) in
      let (gs, le) = move_past-AllGood sc ic known floor p ss h.0.1 h.2 in
      let (all, whole) = move_past-AllGood sc ic known floor p (s ∷ ss) h.0 (omega arith, h.2) in
      let self : (p == p) ≡ true = (==_iff p p).1 refl in
      let first : left sc ic known (past_pivot sc p s) < left sc ic known s =
        rw (h.1, self) (advance-left_lt sc ic known (p + 1) s g.valid h.1 (omega arith)) in
      (
        elim (Bool-cases (accepts p)) [
          | inl yes_p ↦
              let fits : is_fit fl sc lib is_lib known accepts top_k (p + 1) hit ≡ true =
                unfold is_fit in rw (yes_p, g.among p in_first) (ground (arith, asc.0, here)) in
              rw yes_p (record {
                floor = p + 1;
                good = all;
                heaped =
                    offer-IsHeap fl sc lib is_lib known accepts top_k floor hit st.heap st refl
                      heaped fits (omega (arith, above.0, here));
              })
          | inr no_p ↦ rw no_p (record {
            floor = p + 1;
            good = all;
            heaped =
                IsHeap-mono fl sc lib is_lib known accepts top_k floor (p + 1) st.heap
                  (omega (arith, above.0, here)) heaped;
          })
        ],
        omega (arith, first, le),
      )

  module _ (use_block_max : Bool) where
    -- Where blocks are skipped, the first child moves.
    abbrev pub Passes : F → Type 0
    Passes theta =
        (s : S) (ss : List S)
        → All IsValid (s ∷ ss)
        → sc.cursor.is_end s ≡ false
        → (use_block_max && fl.lt_f (block_sum fl sc lib fl.zero_f (s ∷ ss)) theta) ≡ true
        → (sc.cursor.doc_id s ≤ sc.block_max_doc_id s) × (sc.block_max_doc_id s < invalid_doc)

    -- A round that goes on keeps what there is, and moves a child on.
    abbrev pub Progress : F → ℕ → Outcome F S → Type 0
    Progress theta n (ended r) = IsRun r
    Progress theta n (going r) = IsRun r × (Passes theta → measure r.children < n)

    path_a-IsRun :
        (floor : ℕ) (s : S) (ss : List S) (st : Run F S)
        → Leads floor s ss
        → Heaped floor st.heap
        → let r = path_a fl sc lib accepts top_k use_block_max (sc.cursor.doc_id s) (s ∷ ss) st in
          IsRun r × (Passes st.theta → measure r.children < measure (s ∷ ss))
    unfolding path_a skip_block total
    path_a-IsRun floor s ss st h heaped =
        let low = fl.lt_f (block_sum fl sc lib fl.zero_f (s ∷ ss)) st.theta in
        elim (Bool-cases (use_block_max && low)) [
          | inl skips ↦
              let (gs, le) = skip_block-AllGood sc ic known floor ss h.0.1 in
              let valid = valid-All sc ic known floor (s ∷ ss) h.0 in
              rw skips (
                record {
                  floor = floor;
                  good = (past_block-IsGood sc ic known floor s h.0.0, gs);
                  heaped = heaped;
                },
                λ passes.
                    let bm = passes s ss valid h.1 skips in
                    omega (arith, past_block-left_lt sc ic known s h.0.0.valid h.1 bm.0 bm.1, le),
              )
          | inr scores ↦
              let r = score_pivot-IsRun floor s ss st h heaped in rw scores (r.0, λ passes. r.1)
        ]

    -- The children that lag behind the pivot catch up; the first one does.
    path_b-IsRun :
        (floor i : ℕ) (s : S) (ss : List S) (st : Run F S)
        → Leads floor s ss
        → Heaped floor st.heap
        → (sc.cursor.doc_id s == doc_at sc i (s ∷ ss)) ≡ false
        → let cs = align_lagging_cursors sc i (doc_at sc i (s ∷ ss)) (s ∷ ss) in
          IsRun (record st { children = cs }) × (measure cs < measure (s ∷ ss))
    unfolding align_lagging_cursors total doc_at
    path_b-IsRun floor zero s ss st h heaped apart =
        let self : (sc.cursor.doc_id s == sc.cursor.doc_id s) ≡ true =
          (==_iff _ (sc.cursor.doc_id s)).1 refl in
        cc (self, apart)
    path_b-IsRun floor (suc i) s ss st h heaped apart =
        let p = doc_at sc i ss in
        let low = doc_at-le (sc.cursor.doc_id s) i ss (first_below floor s ss h) h.2 in
        let behind : sc.cursor.doc_id s < p = ground (arith, low, apart) in
        let (gs, le) = align-AllGood sc ic known floor i p ss h.0.1 in
        let test : ltb (sc.cursor.doc_id s) p ≡ true = ground (arith, behind) in
        let first : left sc ic known (catch_up sc p s) < left sc ic known s =
          rw (h.1, test) (advance-left_lt sc ic known p s h.0.0.valid h.1 behind) in
        (
          record {
            floor = floor;
            good = (catch_up-IsGood sc ic known floor p s h.0.0, gs);
            heaped = heaped;
          },
          omega (arith, first, le),
        )

    pub pivot_round-Progress :
        (floor : ℕ) (s : S) (ss : List S) (pivot : Option ℕ) (st : Run F S)
        → Leads floor s ss
        → Heaped floor st.heap
        → Progress st.theta
            (measure (s ∷ ss))
            (pivot_round fl sc lib accepts top_k use_block_max s ss pivot st)
    unfolding pivot_round
    pivot_round-Progress floor s ss none st h heaped = record {
      floor = floor;
      good = h.0;
      heaped = heaped;
    }
    pivot_round-Progress floor s ss (some i) st h heaped =
        let p = doc_at sc i (s ∷ ss) in
        elim (Bool-cases (p == invalid_doc)) [
          | inl gone ↦ rw gone (record { floor = floor; good = h.0; heaped = heaped })
          | inr there ↦ elim (Bool-cases (sc.cursor.doc_id s == p)) [
            | inl aligned ↦
                let e : sc.cursor.doc_id s ≡ p = (==_iff (sc.cursor.doc_id s) p).0 aligned in
                let on : Run F S = path_a fl sc lib accepts top_k use_block_max p (s ∷ ss) st in
                let behind : Run F S = record st {
                  children = align_lagging_cursors sc i p (s ∷ ss);
                } in
                let moved : IsRun on × (Passes st.theta → measure on.children < measure (s ∷ ss)) =
                  subst
                    (λ (k : ℕ).
                      let r = path_a fl sc lib accepts top_k use_block_max k (s ∷ ss) st in
                      IsRun r × (Passes st.theta → measure r.children < measure (s ∷ ss)))
                    e (path_a-IsRun floor s ss st h heaped) in
                rw there (
                  subst
                    (λ (b : Bool).
                      Progress st.theta (measure (s ∷ ss)) (if b then going on else going behind))
                    (sym aligned) moved)
            | inr apart ↦
                let r = path_b-IsRun floor i s ss st h heaped apart in
                rw (there, apart) (r.0, λ passes. r.1)
          ]
        ]
