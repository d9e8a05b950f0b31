-- ===== src/Codec/SkipList/Find.antt =====
-- `find` with its shortcut over level 1 is the plain scan of level 0.
use piggy_engine.Prelude.{
  ℕ, zero, suc, ◌+◌, ◌-◌, ◌*◌, ◌≤◌, ◌<◌, List, [], ◌∷◌, ◌++◌, ◌≡◌, refl, arith, ap, sym, ◌∙◌, some,
  none,
}
use piggy_engine.Prelude.{
  length, take, drop, leb, All, drop-drop, take-append-drop, length-take, length-drop, Bool-cases,
  inl, inr, ◌⊎◌, leb→lt, leb→le, All-take, true, false,
}
use piggy_engine.Core.{SkipNode}
use piggy_engine.Codec.SkipList.{
  skip_interval, last_node, summary, level1_loop, build_level1, new, FindResult, not_found,
  start_loop, scan_loop, scan_from, find,
}

-- The blocks hold ascending documents, so their last documents ascend.
abbrev pub IsSorted : List SkipNode → Type 0
IsSorted [] = Unit {0}
IsSorted (n ∷ ns) = All (λ m. n.max_doc_id ≤ m.max_doc_id) ns × IsSorted ns

IsSorted-drop : (k : ℕ) (ns : List SkipNode) → IsSorted ns → IsSorted (drop k ns)
IsSorted-drop zero ns h = h
IsSorted-drop (suc k) [] h = tt
IsSorted-drop (suc k) (n ∷ ns) h = IsSorted-drop k ns h.1

IsSorted-take : (k : ℕ) (ns : List SkipNode) → IsSorted ns → IsSorted (take k ns)
IsSorted-take zero ns h = tt
IsSorted-take (suc k) [] h = tt
IsSorted-take (suc k) (n ∷ ns) h =
    (All-take (λ m. n.max_doc_id ≤ m.max_doc_id) k ns h.0, IsSorted-take k ns h.1)

-- In a sorted group that ends below the target every node is below it.
below_of_last :
    (target : ℕ) (n : SkipNode) (ns : List SkipNode)
    → IsSorted (n ∷ ns)
    → (last_node n ns).max_doc_id < target
    → All (λ m. m.max_doc_id < target) (n ∷ ns)
unfolding last_node
below_of_last target n [] h low = (low, tt)
below_of_last target n (m ∷ ms) h low =
    let rest = below_of_last target m ms h.1 low in (omega (arith, h.0.0, rest.0), rest)

scan_loop-append :
    (target i : ℕ) (below rest : List SkipNode)
    → All (λ m. m.max_doc_id < target) below
    → scan_loop target (below ++ rest) i ≡ scan_loop target rest (i + length below)
unfolding scan_loop
scan_loop-append target i [] rest h = ap (scan_loop target rest) (omega arith)
scan_loop-append target i (n ∷ ns) rest h =
    let low : leb target n.max_doc_id ≡ false = ground arith in
    rw low (scan_loop-append target (i + 1) ns rest h.1 ∙ ap (scan_loop target rest) (omega arith))

module _ (fmax : ℕ → ℕ → ℕ) (target : ℕ) where
  abbrev tops : ℕ → List SkipNode → List SkipNode
  tops fuel ns = level1_loop fmax fuel ns

  start_loop-hit :
      (s : SkipNode) (ss : List SkipNode) (i : ℕ)
      → leb target s.max_doc_id ≡ true
      → start_loop target (s ∷ ss) i ≡ some (i * skip_interval)
  unfolding start_loop
  start_loop-hit s [] i hit = rw hit
  start_loop-hit s (t ∷ ts) i hit = rw hit

  start_loop-miss :
      (s m : SkipNode) (ms : List SkipNode) (fuel i : ℕ)
      → leb target s.max_doc_id ≡ false
      → 0 < fuel
      → start_loop target (s ∷ tops fuel (m ∷ ms)) i
        ≡ start_loop target (tops fuel (m ∷ ms)) (i + 1)
  unfolding start_loop level1_loop
  start_loop-miss s m ms zero i miss more = absurd (omega arith)
  start_loop-miss s m ms (suc fuel) i miss more = rw miss

  start_loop-end :
      (s : SkipNode) (fuel i : ℕ)
      → leb target s.max_doc_id ≡ false
      → start_loop target (s ∷ tops fuel []) i ≡ none
  unfolding start_loop level1_loop
  start_loop-end s fuel i miss = rw miss

  abbrev group_top : SkipNode → List SkipNode → SkipNode
  group_top n ns = summary fmax n (take (skip_interval - 1) ns)

  -- A group whose summary is below the target is skipped by the scan too.
  scan_loop-group :
      (n : SkipNode) (ns : List SkipNode) (i : ℕ)
      → IsSorted (n ∷ ns)
      → leb target (group_top n ns).max_doc_id ≡ false
      → scan_loop target (n ∷ ns) i
        ≡ scan_loop target
            (drop (skip_interval - 1) ns)
            (i + suc (length (take (skip_interval - 1) ns)))
  unfolding summary
  scan_loop-group n ns i sorted miss =
      let g = take (skip_interval - 1) ns in
      ap (λ (t : List SkipNode). scan_loop target (n ∷ t) i)
        (sym (take-append-drop (skip_interval - 1) ns))
      ∙ scan_loop-append target i (n ∷ g) (drop (skip_interval - 1) ns) (
          below_of_last target n g (IsSorted-take skip_interval (n ∷ ns) sorted)
            (leb→lt target (last_node n g).max_doc_id miss))

  -- What the loop from group `i` on means, with `n ∷ ns` the nodes that are left.
  abbrev Finds : List SkipNode → ℕ → ℕ → SkipNode → List SkipNode → Type 0
  Finds level0 fuel i n ns =
      drop (i * skip_interval) level0 ≡ n ∷ ns
      → IsSorted (n ∷ ns)
      → length ns < fuel
      → scan_from target level0 (start_loop target (tops fuel (n ∷ ns)) i)
        ≡ scan_loop target (n ∷ ns) (i * skip_interval)

  next_group :
      (level0 ns : List SkipNode) (n : SkipNode) (fuel i : ℕ) (later : List SkipNode)
      → drop (skip_interval - 1) ns ≡ later
      → ((m : SkipNode) (ms : List SkipNode) → Finds level0 fuel (i + 1) m ms)
      → drop (i * skip_interval) level0 ≡ n ∷ ns
      → IsSorted (n ∷ ns)
      → length ns < suc fuel
      → leb target (group_top n ns).max_doc_id ≡ false
      → scan_from target level0 (start_loop target (group_top n ns ∷ tops fuel later) i)
        ≡ scan_loop target later (i * skip_interval + suc (length (take (skip_interval - 1) ns)))
  unfolding scan_from scan_loop
  next_group level0 ns n fuel i [] e ih at sorted enough miss =
      ap (scan_from target level0) (start_loop-end (group_top n ns) fuel i miss)
  next_group level0 ns n fuel i (m ∷ ms) e ih at sorted enough miss =
      let left : length (m ∷ ms) ≡ length ns - (skip_interval - 1) =
        ap length (sym e) ∙ length-drop (skip_interval - 1) ns in
      let at_next : drop ((i + 1) * skip_interval) level0 ≡ m ∷ ms =
        ap (λ (k : ℕ). drop k level0) (omega arith)
        ∙ sym (drop-drop (i * skip_interval) skip_interval level0)
        ∙ ap (drop skip_interval) at
        ∙ e in
      ap (scan_from target level0) (start_loop-miss (group_top n ns) m ms fuel i miss (omega arith))
      ∙ ih m ms at_next (rw e at (IsSorted-drop skip_interval (n ∷ ns) sorted)) (omega arith)
      ∙ ap (scan_loop target (m ∷ ms)) (omega (arith, length-take (skip_interval - 1) ns))

  start_loop-Finds :
      (level0 : List SkipNode) (fuel i : ℕ) (n : SkipNode) (ns : List SkipNode)
      → Finds level0 fuel i n ns
  unfolding level1_loop scan_from
  start_loop-Finds level0 zero i n ns at sorted enough = absurd (omega arith)
  start_loop-Finds level0 (suc fuel) i n ns at sorted enough =
      elim (Bool-cases (leb target (group_top n ns).max_doc_id)) [
        | inl hit ↦
            ap (scan_from target level0) (start_loop-hit (group_top n ns) _ i hit)
            ∙ ap (λ (t : List SkipNode). scan_loop target t (i * skip_interval)) at
        | inr miss ↦
            next_group level0 ns n fuel i (drop (skip_interval - 1) ns) refl
              (λ m ms. start_loop-Finds level0 fuel (i + 1) m ms) at sorted enough miss
            ∙ sym (scan_loop-group n ns (i * skip_interval) sorted miss)
      ]

-- On nodes whose last documents ascend, `find` through level 1 is the scan of all of level 0: it
-- returns the offset and the index of the first block that ends at or after the target, and
-- `not_found` if there is none.
pub find-scan_loop :
    (fmax : ℕ → ℕ → ℕ) (nodes : List SkipNode) (target : ℕ)
    → IsSorted nodes
    → find (new fmax nodes) target ≡ scan_loop target nodes 0
unfolding find new build_level1 scan_loop start_loop scan_from
find-scan_loop fmax [] target sorted = refl
find-scan_loop fmax (n ∷ ns) target sorted =
    elim (Bool-cases (leb (length (n ∷ ns)) skip_interval)) [
      | inl few ↦ rw few
      | inr many ↦
          rw many (
            start_loop-Finds fmax target (n ∷ ns) (length (n ∷ ns)) 0 n ns refl sorted
              (omega arith))
    ]

-- The answer for a target: the first node that ends at or after it, or none.
abbrev pub IsFirstAtOrAfter : List SkipNode → ℕ → ℕ → FindResult → Type 0
IsFirstAtOrAfter nodes i target r =
    (All (λ m. m.max_doc_id < target) nodes × (r ≡ not_found))
    ⊎ ((before : List SkipNode) × (n : SkipNode) × (after : List SkipNode) × (nodes
          ≡ before ++ n ∷ after)
        × All (λ m. m.max_doc_id < target) before
        × (target ≤ n.max_doc_id)
        × (r ≡ record {
          byte_offset = n.byte_offset;
          block_index = i + length before;
          block_first_doc = 0;
        }))

scan_loop-IsFirstAtOrAfter :
    (target : ℕ) (nodes : List SkipNode) (i : ℕ)
    → IsFirstAtOrAfter nodes i target (scan_loop target nodes i)
unfolding scan_loop
scan_loop-IsFirstAtOrAfter target [] i = inl (tt, refl)
scan_loop-IsFirstAtOrAfter target (n ∷ ns) i = elim (Bool-cases (leb target n.max_doc_id)) [
  | inl hit ↦ rw hit (
      inr (
        [],
        n,
        ns,
        refl,
        tt,
        leb→le target n.max_doc_id hit,
        ap (λ (k : ℕ). record { byte_offset = n.byte_offset; block_index = k; block_first_doc = 0 })
            (omega arith),
      ))
  | inr miss ↦
      rw miss
        (extend (leb→lt target n.max_doc_id miss) (scan_loop-IsFirstAtOrAfter target ns (i + 1)))
]
  where
    extend :
        {r : FindResult}
        → n.max_doc_id < target
        → IsFirstAtOrAfter ns (i + 1) target r
        → IsFirstAtOrAfter (n ∷ ns) i target r
    extend low (inl (all, e)) = inl ((low, all), e)
    extend low (inr (before, m, after, e, lows, hit, r)) = inr (
      n ∷ before,
      m,
      after,
      ap (λ (t : List SkipNode). n ∷ t) e,
      (low, lows),
      hit,
      r
          ∙ ap
              (λ (k : ℕ). record {
                byte_offset = m.byte_offset;
                block_index = k;
                block_first_doc = 0;
              })
              (omega arith),
    )

-- On nodes whose last documents ascend, the two-level `find` answers with the first block that ends
-- at or after the target, its offset and its index, or with `not_found` if every block ends before.
pub find-IsFirstAtOrAfter :
    (fmax : ℕ → ℕ → ℕ) (nodes : List SkipNode) (target : ℕ)
    → IsSorted nodes
    → IsFirstAtOrAfter nodes 0 target (find (new fmax nodes) target)
find-IsFirstAtOrAfter fmax nodes target sorted =
    rw (find-scan_loop fmax nodes target sorted) (scan_loop-IsFirstAtOrAfter target nodes 0)
