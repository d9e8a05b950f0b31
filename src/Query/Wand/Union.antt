-- ===== src/Query/Wand/Union.antt =====
-- A `WANDScorer` that does not fill its heap has all documents of its children.
use piggy_engine.Prelude.{
  ℕ, zero, suc, ◌+◌, ◌*◌, ◌^◌, ◌<◌, List, [], ◌∷◌, map, Bool, true, false, ◌||◌, ◌≡◌, refl, sym, ap,
  ◌∙◌, ◌⊎◌, inl, inr, arith,
}
use piggy_engine.Prelude.{length, All, ◌==◌, ==_iff, Bool-cases}
use piggy_engine.Prelude.Counts.{count, count-all, count-reverse}
use mathlib.Core.List.{reverse}
use piggy_engine.Query.Docs.{mem, in_any, is_nonempty}
use piggy_engine.Query.Docs.Cases.{empty-nil, not-true}
use piggy_engine.Query.Cursor.{Scorer, IsCursor}
use piggy_engine.Query.Floats.{Float32}
use piggy_engine.Query.Wand.Iteration.{Hit, sort_hits}
use piggy_engine.Query.Wand.{
  Run, Library, Outcome, ended, going, at_least, block_sum, drop_ended, round, go_on, wand_loop,
  max_rounds, run_wand, living, pop_all, new,
}
use piggy_engine.Query.Wand.Moves.{valid-All, IsGood}
use piggy_engine.Query.Wand.Heap.{IsLibrary}
use piggy_engine.Query.Wand.Hits.{docs_of, pending as hits_pending}
use piggy_engine.Query.Wand.Loop.{Runs, Moving, Goes, size_of, next_round, loop, ready, round-Goes}
use piggy_engine.Query.Wand.Sorting.{count-sort_hits, count-pop_all}
use piggy_engine.Query.Wand.Laws.{
  before_run, children-IsGood, living-All, before_run-IsRun, measure_bound,
}
use piggy_engine.Query.Wand.Documents.{round-in_children}
use piggy_engine.Query.Wand.Full.{Full, StaysFull, sorted_round-StaysFull}
use piggy_engine.Query.Wand.Complete.{IsOpen, Found, Finds, sorted_round-Finds}

module _ {F : Type 0} where
  mem-count :
      (d : ℕ) (hs : List (Hit F)) → mem d (docs_of hs) ≡ true → 0 < count (λ h. h.doc_id == d) hs
  unfolding mem count
  mem-count d [] h = cc
  mem-count d (e ∷ es) h = ground (arith, h, mem-count d es)

  count-mem :
      (d : ℕ) (hs : List (Hit F)) → 0 < count (λ h. h.doc_id == d) hs → mem d (docs_of hs) ≡ true
  unfolding mem count
  count-mem d [] h = absurd (omega arith)
  count-mem d (e ∷ es) h = ground (arith, h, count-mem d es)

module _ {F S : Type 0} (fl : Float32 F) (sc : Scorer F S) (lib : Library F S)
    {IsValid : S → Type 0} {pending : S → List ℕ} (ic : IsCursor sc.cursor IsValid pending)
    (is_lib : IsLibrary sc lib) (accepts : ℕ → Bool) (top_k : ℕ) (use_block_max : Bool)
    (bound_not_negative : (s : S)
      → IsValid s
      → at_least fl sc lib (fl.add_f fl.zero_f (sc.max_score s)) fl.zero_f ≡ true)
    (block_not_negative : (cs : List S)
      → All IsValid cs
      → fl.lt_f (block_sum fl sc lib fl.zero_f cs) fl.zero_f ≡ false) where
  module _ (known : ℕ → Bool) where
    abbrev IsFull : Run F S → Type 0
    IsFull = Full fl sc lib is_lib known accepts top_k use_block_max

    abbrev Opens : Run F S → Type 0
    Opens =
        IsOpen fl sc lib ic is_lib known accepts top_k use_block_max bound_not_negative
          block_not_negative

    abbrev Has : Run F S → Type 0
    Has =
        Found fl sc lib ic is_lib known accepts top_k use_block_max bound_not_negative
          block_not_negative

    abbrev Keeps : Outcome F S → Type 0
    Keeps = StaysFull fl sc lib is_lib known accepts top_k use_block_max

    abbrev Gives : Outcome F S → Type 0
    Gives =
        Finds fl sc lib ic is_lib known accepts top_k use_block_max bound_not_negative
          block_not_negative

    abbrev turn : Run F S → Outcome F S
    turn = next_round fl sc lib ic is_lib known accepts top_k use_block_max

    abbrev run_for : ℕ → Run F S → Run F S
    run_for = loop fl sc lib ic is_lib known accepts top_k use_block_max

    abbrev IsFine : Run F S → Type 0
    IsFine = Runs fl sc lib ic is_lib known accepts top_k use_block_max

    abbrev ahead : List S → ℕ
    ahead = size_of fl sc lib ic is_lib known accepts top_k use_block_max

    turn-Keeps : (st : Run F S) → IsFull st → Keeps (turn st)
    unfolding round
    turn-Keeps st full =
        sorted_round-StaysFull fl sc lib is_lib known accepts top_k use_block_max
          (drop_ended sc (lib.sort st.children)) st full

    turn-Gives : (st : Run F S) → IsFine st → Opens st → Gives (turn st)
    unfolding round
    turn-Gives st v o =
        let valid = valid-All sc ic known v.floor st.children v.good in
        sorted_round-Finds fl sc lib ic is_lib known accepts top_k use_block_max bound_not_negative
          block_not_negative v.floor (drop_ended sc (lib.sort st.children)) st o.no_bound o.room
          (λ d a k. still d st.children (docs_of st.heap) valid (o.found d a k))
          (ready fl sc lib ic is_lib known accepts top_k v.floor st.children v.good)
      where
        still :
            (d : ℕ) (cs : List S) (ds : List ℕ)
            → All IsValid cs
            → (in_any d (map pending cs) || mem d ds) ≡ true
            → (in_any d (map pending (drop_ended sc (lib.sort cs))) || mem d ds) ≡ true
        still d cs ds valid h = elim (Bool-cases (in_any d (map pending cs))) [
          | inl here ↦ rw (round-in_children sc lib ic is_lib known d cs valid here) refl
          | inr gone ↦ let held : mem d ds ≡ true = rw gone at h in rw held (ground arith)
        ]

    loop-IsFull : (fuel : ℕ) (st : Run F S) → IsFull st → IsFull (run_for fuel st)
    unfolding wand_loop
    loop-IsFull zero st full = full
    loop-IsFull (suc fuel) st full =
        after (turn st) (turn-Keeps st full) (λ r h. loop-IsFull fuel r h)
      where
        after :
            (o : Outcome F S)
            → Keeps o
            → ((r : Run F S) → IsFull r → IsFull (run_for fuel r))
            → IsFull (go_on fl sc lib accepts top_k use_block_max (λ r. run_for fuel r) o)
        after (ended r) h again = h
        after (going r) h again = again r h

    -- With no bound on the scores yet, no block is skipped.
    unpruned :
        (st : Run F S)
        → st.theta ≡ fl.zero_f
        → Moving fl sc lib ic is_lib known accepts top_k use_block_max st.theta
    unpruned st unset s ss vs on skips =
        let sum = block_sum fl sc lib fl.zero_f (s ∷ ss) in
        let high : fl.lt_f sum st.theta ≡ false =
          ap (λ (t : F). fl.lt_f sum t) unset ∙ block_not_negative (s ∷ ss) vs in
        ground (arith, high, skips)

    loop-Has :
        (fuel : ℕ) (st : Run F S)
        → IsFine st
        → Opens st
        → ahead st.children < fuel
        → IsFull (run_for fuel st) ⊎ Has (run_for fuel st)
    unfolding wand_loop
    loop-Has zero st v o enough = absurd (omega arith)
    loop-Has (suc fuel) st v o enough =
        after st.theta (ahead st.children) (turn st)
          (round-Goes fl sc lib ic is_lib known accepts top_k use_block_max st v)
          (unpruned st o.no_bound) (turn-Gives st v o) enough (λ r h. loop-IsFull fuel r h)
          (λ r w p less. loop-Has fuel r w p less)
      where
        after :
            (theta : F) (n : ℕ) (o : Outcome F S)
            → Goes fl sc lib ic is_lib known accepts top_k use_block_max theta n o
            → Moving fl sc lib ic is_lib known accepts top_k use_block_max theta
            → Gives o
            → n < suc fuel
            → ((r : Run F S) → IsFull r → IsFull (run_for fuel r))
            → ((r : Run F S)
                → IsFine r
                → Opens r
                → ahead r.children < fuel
                → IsFull (run_for fuel r) ⊎ Has (run_for fuel r))
            → let r = go_on fl sc lib accepts top_k use_block_max (λ r. run_for fuel r) o in
              IsFull r ⊎ Has r
        after theta n (ended r) goes moves gives lt full again = inr gives
        after theta n (going r) goes moves (inl h) lt full again = inl (full r h)
        after theta n (going r) goes moves (inr p) lt full again =
            again r goes.0 p (omega (arith, goes.1 moves, lt))

  living-in_any :
      (d : ℕ) (children : List S)
      → All IsValid children
      → in_any d (map pending children) ≡ true
      → in_any d (map pending (living fl sc lib accepts top_k use_block_max children)) ≡ true
  unfolding living in_any
  living-in_any d [] v h = h
  living-in_any d (s ∷ ss) v h = elim (Bool-cases (sc.cursor.is_end s)) [
    | inr on ↦ elim (Bool-cases (mem d (pending s))) [
      | inl first ↦ rw (on, first) refl
      | inr behind ↦ rw (on, behind) (living-in_any d ss v.1 (rw behind at h))
    ]
    | inl over ↦
        let gone : pending s ≡ [] =
          empty-nil (pending s)
            (not-true (is_nonempty (pending s)) (sym (ic.is_end_is s v.0) ∙ over)) in
        let absent : mem d (pending s) ≡ false = ap (mem d) gone ∙ unfold mem in refl in
        rw over (living-in_any d ss v.1 (rw absent at h))
  ]

  run_wand-Has :
      (known : ℕ → Bool) (cs : List S)
      → All (IsGood sc ic known 0) cs
      → ((d : ℕ) → accepts d ≡ true → known d ≡ true → in_any d (map pending cs) ≡ true)
      → let r = run_wand fl sc lib accepts top_k use_block_max cs in IsFull known r ⊎ Has known r
  unfolding run_wand max_rounds
  run_wand-Has known cs good all = elim (Bool-cases (top_k == 0)) [
    | inl no_hits ↦ inl (rw no_hits (sym ((==_iff top_k 0).0 no_hits)))
    | inr some_hits ↦
        let start : Opens known (before_run fl sc lib ic is_lib accepts top_k use_block_max cs) =
          record {
            no_bound = refl;
            room = ground (arith, some_hits);
            found = λ d a k. rw (all d a k) refl;
          } in
        rw some_hits (
          loop-Has known (length cs * 2 ^ 32 + 1)
            (before_run fl sc lib ic is_lib accepts top_k use_block_max cs)
            (before_run-IsRun fl sc lib ic is_lib accepts top_k use_block_max known cs good) start
            (omega
              (arith, measure_bound fl sc lib ic is_lib accepts top_k use_block_max known cs good)))
  ]

  -- A new `WANDScorer` over valid children has `top_k` hits, or it has every accepted document of a
  -- child, where no bound of a score that the children give is negative: the pruning passes over no
  -- document before the heap is full.
  pub new-complete_or_full :
      (children : List S)
      → All IsValid children
      → let w = new fl sc lib accepts top_k use_block_max children in
        (length w.doc_order_hits ≡ top_k)
        ⊎ ((d : ℕ)
            → accepts d ≡ true
            → in_any d (map pending children) ≡ true
            → mem d (hits_pending w) ≡ true)
  unfolding new hits_pending
  new-complete_or_full children valid =
      let known : ℕ → Bool = λ d. in_any d (map pending children) in
      let cs = living fl sc lib accepts top_k use_block_max children in
      let good =
        living-All fl sc lib ic is_lib accepts top_k use_block_max (IsGood sc ic known 0) children (
          children-IsGood fl sc lib ic is_lib accepts top_k use_block_max known children valid
            (λ d here. here)) in
      let heap = (run_wand fl sc lib accepts top_k use_block_max cs).heap in
      let popped = pop_all fl sc lib accepts top_k use_block_max (length heap) heap in
      let by_doc = sort_hits (reverse popped) in
      let same : (q : Hit F → Bool) → count q by_doc ≡ count q heap = λ q.
        count-sort_hits q (reverse popped)
        ∙ count-reverse q popped
        ∙ count-pop_all fl sc lib is_lib accepts top_k use_block_max q (length heap) heap
            (omega arith) in
      elim (run_wand-Has known cs good (λ d a k. living-in_any d children valid k)) [
        | inl full ↦ inl (omega (arith, same (λ h. true), count-all by_doc, count-all heap, full))
        | inr has ↦ inr (λ d a k.
            count-mem d by_doc
              (omega (arith, same (λ h. h.doc_id == d), mem-count d heap (has d a k))))
      ]
