-- ===== src/Query/Wand/Laws.antt =====
-- What the constructor of `WANDScorer` makes of its children.
use piggy_engine.Prelude.{
  ℕ, ◌+◌, ◌*◌, ◌^◌, ◌≤◌, ◌<◌, List, [], ◌∷◌, map, Bool, true, false, ◌≡◌, refl, inl, inr, arith,
}
use piggy_engine.Prelude.{length, All, ◌==◌, Bool-cases}
use piggy_engine.Prelude.Counts.{count}
use piggy_engine.Core.{invalid_doc}
use piggy_engine.Query.Docs.{mem, in_any}
use piggy_engine.Query.Docs.Laws.{length-IsAscending}
use piggy_engine.Query.Cursor.{Scorer, IsCursor}
use piggy_engine.Query.Floats.{Float32}
use piggy_engine.Query.Wand.Iteration.{WandScorer, collect_top_k}
use piggy_engine.Query.Wand.{Run, Library, wand_loop, max_rounds, run_wand, living}
use piggy_engine.Query.Wand.Moves.{total, IsGood, left}
use piggy_engine.Query.Wand.Heap.{IsLibrary}
use piggy_engine.Query.Wand.Hits.{pending as hits_pending, IsValid as IsHits}
use piggy_engine.Query.Wand.Rounds.{first-true, IsRun}
use piggy_engine.Query.Wand.Loop.{loop-IsRun, loop-stays}

module _ {F S : Type 0} (fl : Float32 F) (sc : Scorer F S) (lib : Library F S)
    {IsValid : S → Type 0} {pending : S → List ℕ} (ic : IsCursor sc.cursor IsValid pending)
    (is_lib : IsLibrary sc lib) (accepts : ℕ → Bool) (top_k : ℕ) (use_block_max : Bool) where
  -- the documents that a child has
  abbrev pub among : List S → ℕ → Bool
  among children d = in_any d (map pending children)

  -- The run before the first round.
  abbrev pub before_run : List S → Run F S
  before_run children = record {
    children = children;
    heap = [];
    theta = fl.zero_f;
    blocks_skipped = 0;
  }

  floor_zero : (ds : List ℕ) → All (λ d. 0 ≤ d) ds
  floor_zero [] = tt
  floor_zero (d ∷ ds) = (omega arith, floor_zero ds)

  pub children-IsGood :
      (known : ℕ → Bool) (children : List S)
      → All IsValid children
      → ((d : ℕ) → among children d ≡ true → known d ≡ true)
      → All (IsGood sc ic known 0) children
  unfolding in_any
  children-IsGood known [] v h = tt
  children-IsGood known (s ∷ ss) v h = (
    record { valid = v.0; above = floor_zero (pending s); among = λ d here. h d (rw here refl) },
    children-IsGood known ss v.1 (λ d here. h d (rw here (ground arith))),
  )

  pub living-All :
      (P : S → Type 0) (children : List S)
      → All P children
      → All P (living fl sc lib accepts top_k use_block_max children)
  unfolding living
  living-All P [] h = tt
  living-All P (s ∷ ss) h = elim (Bool-cases (sc.cursor.is_end s)) [
    | inl over ↦ rw over (living-All P ss h.1)
    | inr on ↦ rw on (h.0, living-All P ss h.1)
  ]

  pub before_run-IsRun :
      (known : ℕ → Bool) (children : List S)
      → All (IsGood sc ic known 0) children
      → IsRun fl sc lib ic is_lib known accepts top_k (before_run children)
  unfolding count
  before_run-IsRun known children good = record {
    floor = 0;
    good = good;
    heaped = record { fit = refl; once = λ d. omega arith; small = omega arith };
  }

  pub measure_bound :
      (known : ℕ → Bool) (cs : List S)
      → All (IsGood sc ic known 0) cs
      → total (left sc ic known) cs ≤ length cs * 2 ^ 32
  unfolding total
  measure_bound known [] g = omega arith
  measure_bound known (s ∷ ss) g =
      let one = length-IsAscending (pending s) (ic.ascending s g.0.valid) in
      let rest = measure_bound known ss g.1 in omega (arith, one, rest)

  -- `runWAND` ends: over valid children, after the rounds that the model grants, which are more
  -- than the children have documents, further rounds change nothing, whatever the scores are. Where
  -- blocks are used, each valid child that has not ended has to have a block, which ends below
  -- `INVALID_DOC` and not before its current document, so that the exclusion and WAND scorers, which
  -- have no blocks, are not among the children then.
  pub wand_loop-stays :
      (children : List S) (extra : ℕ)
      → All IsValid children
      → (use_block_max ≡ true
          → (s : S) → IsValid s
          → sc.cursor.is_end s ≡ false
          → (sc.cursor.doc_id s ≤ sc.block_max_doc_id s) × (sc.block_max_doc_id s < invalid_doc))
      → let loop = wand_loop fl sc lib accepts top_k use_block_max in
        let rounds = max_rounds fl sc lib accepts top_k use_block_max (length children) in
        loop (rounds + extra) (before_run children) ≡ loop rounds (before_run children)
  unfolding max_rounds
  wand_loop-stays children extra valid blocks =
      let good = children-IsGood (among children) children valid (λ d here. here) in
      loop-stays fl sc lib ic is_lib (among children) accepts top_k use_block_max
        (length children * 2 ^ 32 + 1) extra (before_run children)
        (λ theta s ss vs on skips. blocks (first-true use_block_max _ skips) s vs.0 on)
        (before_run-IsRun (among children) children good)
        (omega (arith, measure_bound (among children) children good))

  pub run_wand-IsRun :
      (known : ℕ → Bool) (children : List S)
      → All (IsGood sc ic known 0) children
      → IsRun fl sc lib ic is_lib known accepts top_k
          (run_wand fl sc lib accepts top_k use_block_max children)
  unfolding run_wand
  run_wand-IsRun known children good =
      let v = before_run-IsRun known children good in
      elim (Bool-cases (top_k == 0)) [
        | inl no_hits ↦ rw no_hits v
        | inr some_hits ↦ rw some_hits (
            loop-IsRun fl sc lib ic is_lib known accepts top_k use_block_max
              (max_rounds fl sc lib accepts top_k use_block_max (length children))
              (before_run children) v)
      ]

  -- What a new `WANDScorer` has.
  pub record IsTop (children : List S) (w : WandScorer F) : Type 0 where
    pub hits_valid : IsHits w
    pub bounded : length w.doc_order_hits ≤ top_k
    pub accepted : (d : ℕ) → mem d (hits_pending w) ≡ true → accepts d ≡ true
    pub from_children :
        (d : ℕ) → mem d (hits_pending w) ≡ true → in_any d (map pending children) ≡ true
    pub collected :
        (p : ℕ → Bool)
        → count (λ r. p r.doc_id) (collect_top_k w) ≡ count (λ h. p h.doc_id) w.doc_order_hits
