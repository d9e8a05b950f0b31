-- ===== src/Query/Wand.antt =====
-- modules/query/src/wand_scorer.cpp: the best documents of several scorers. `std::sort` and
-- `std::priority_queue` are parameters: the order of the children by their documents, and which of
-- the worst hits is on top. The children are not read after the constructor. A
-- `top_k` that is negative does what 0 does, so it is a natural number.
pub mod Iteration
pub mod Hits
pub mod Moves
pub mod Heap
pub mod Rounds
pub mod Loop
pub mod Sorting
pub mod Documents
pub mod Full
pub mod Complete
pub mod Laws
pub mod Union
use piggy_engine.Prelude.{
  ℕ, zero, suc, ◌+◌, ◌*◌, ◌^◌, List, [], ◌∷◌, map, Bool, true, false, not, ◌&&◌, ◌||◌, Option, none,
  some,
}
use piggy_engine.Prelude.{length, drop, if◌then◌else◌, ltb, leb, ◌==◌}
use piggy_engine.Prelude.Words.{add32}
use mathlib.Core.List.{reverse}
use piggy_engine.Core.{invalid_doc}
use piggy_engine.Query.Cursor.{Cursor, Scorer}
use piggy_engine.Query.Floats.{Float32}
use piggy_engine.Query.Wand.Iteration.{Hit, WandScorer, sort_hits, first_doc, first_score}

-- What the loop of `runWAND` changes. The heap is the list of its entries.
pub record Run (F S : Type 0) : Type 0 where
  pub children : List S
  pub heap : List (Hit F)
  pub theta : F
  pub blocks_skipped : ℕ

pub data Outcome (F S : Type 0) : Type 0 where
  ended : Run F S → Outcome F S
  going : Run F S → Outcome F S

-- `sort` orders the children by `docId()`, `take_top` is `top()` and what `pop()` leaves.
pub record Library (F S : Type 0) : Type 0 where
  pub sort : List S → List S
  pub take_top : Hit F → List (Hit F) → Hit F × List (Hit F)

module _ {F S : Type 0} (sc : Scorer F S) where
  -- `while (!children_.empty() && children_.back()->isEnd()) children_.pop_back()`
  abbrev pub unless_last_ended : S → List S → List S
  unless_last_ended s [] = if sc.cursor.is_end s then [] else s ∷ []
  unless_last_ended s (t ∷ ts) = s ∷ t ∷ ts

  unfoldable pub drop_ended : List S → List S
  drop_ended [] = []
  drop_ended (s ∷ ss) = unless_last_ended s (drop_ended ss)

  -- `children_[i]->docId()`
  unfoldable pub doc_at : ℕ → List S → ℕ
  doc_at i [] = invalid_doc
  doc_at zero (s ∷ ss) = sc.cursor.doc_id s
  doc_at (suc i) (s ∷ ss) = doc_at i ss

  abbrev pub catch_up : ℕ → S → S
  catch_up pivot_doc s =
      if not (sc.cursor.is_end s) && ltb (sc.cursor.doc_id s) pivot_doc
      then (sc.cursor.advance pivot_doc s).1
      else s

  unfoldable pub align_lagging_cursors : ℕ → ℕ → List S → List S
  align_lagging_cursors i pivot_doc [] = []
  align_lagging_cursors zero pivot_doc (s ∷ ss) = s ∷ ss
  align_lagging_cursors (suc i) pivot_doc (s ∷ ss) =
      catch_up pivot_doc s ∷ align_lagging_cursors i pivot_doc ss

  abbrev pub past_block : S → S
  past_block s =
      let blk_end = sc.block_max_doc_id s in
      if not (blk_end == invalid_doc) then (sc.cursor.advance (blk_end + 1) s).1 else s

  unfoldable pub skip_block : List S → List S
  skip_block [] = []
  skip_block (s ∷ ss) = past_block s ∷ skip_block ss

  abbrev pub past_pivot : ℕ → S → S
  past_pivot pivot_doc s =
      if not (sc.cursor.is_end s) && (sc.cursor.doc_id s == pivot_doc)
      then (sc.cursor.advance (pivot_doc + 1) s).1
      else s

  unfoldable pub move_past : ℕ → List S → List S
  move_past pivot_doc [] = []
  move_past pivot_doc (s ∷ ss) = past_pivot pivot_doc s ∷ move_past pivot_doc ss

module _ {F S : Type 0} (fl : Float32 F) (sc : Scorer F S) (lib : Library F S) where
  abbrev pub at_least : F → F → Bool
  at_least a b = fl.lt_f b a || fl.eq_f a b

  abbrev pub after_one : Option ℕ → Option ℕ
  after_one none = none
  after_one (some i) = some (suc i)

  unfoldable pub find_pivot : F → F → List S → Option ℕ
  find_pivot theta ub_sum [] = none
  find_pivot theta ub_sum (s ∷ ss) =
      let sum = fl.add_f ub_sum (sc.max_score s) in
      let rest = find_pivot theta sum ss in if at_least sum theta then some 0 else after_one rest

  -- `block_ub_sum`
  unfoldable pub block_sum : F → List S → F
  block_sum acc [] = acc
  block_sum acc (s ∷ ss) = block_sum (fl.add_f acc (sc.block_max_score s)) ss

  -- the score of `pivot_doc`
  unfoldable pub score_at : ℕ → F → List S → F
  score_at pivot_doc acc [] = acc
  score_at pivot_doc acc (s ∷ ss) =
      score_at pivot_doc
        (if sc.cursor.doc_id s == pivot_doc then fl.add_f acc (sc.score s) else acc) ss

  module _ (accepts : ℕ → Bool) (top_k : ℕ) where
    -- `heap.push`, and `theta` when the heap is full
    unfoldable pub push : Hit F → List (Hit F) → Run F S → Run F S
    push h kept st = record st {
      heap = h ∷ kept;
      theta = if length (h ∷ kept) == top_k then (lib.take_top h kept).0.score else st.theta;
    }

    unfoldable pub offer : Hit F → List (Hit F) → Run F S → Run F S
    unfolding push
    offer h [] st = if ltb 0 top_k then push h [] st else st
    offer h (e ∷ es) st =
        let top = lib.take_top e es in
        let size = length (e ∷ es) in
        if ltb size top_k || fl.lt_f top.0.score h.score
        then push h (if size == top_k then top.1 else e ∷ es) st
        else st

    -- The exact score of `pivot_doc` is offered to the heap, and the children at it go on.
    unfoldable pub score_pivot : ℕ → List S → Run F S → Run F S
    unfolding offer score_at move_past
    score_pivot pivot_doc children st =
        let hit : Hit F = record {
          doc_id = pivot_doc;
          score = score_at pivot_doc fl.zero_f children;
        } in
        let offered = if accepts pivot_doc then offer hit st.heap st else st in
        record offered { children = move_past sc pivot_doc children }

    module _ (use_block_max : Bool) where
      -- Path A: the children up to the pivot stand on `pivot_doc`.
      unfoldable pub path_a : ℕ → List S → Run F S → Run F S
      unfolding score_pivot skip_block block_sum
      path_a pivot_doc children st =
          if use_block_max && fl.lt_f (block_sum fl.zero_f children) st.theta
          then record st {
            children = skip_block sc children;
            blocks_skipped = add32 st.blocks_skipped 1;
          }
          else score_pivot pivot_doc children st

      -- One round, once the children are sorted and `s` is the first.
      unfoldable pub pivot_round : S → List S → Option ℕ → Run F S → Outcome F S
      unfolding path_a align_lagging_cursors doc_at
      pivot_round s ss none st = ended (record st { children = s ∷ ss })
      pivot_round s ss (some i) st =
          let pivot_doc = doc_at sc i (s ∷ ss) in
          if pivot_doc == invalid_doc
          then ended (record st { children = s ∷ ss })
          else if sc.cursor.doc_id s == pivot_doc
          then going (path_a pivot_doc (s ∷ ss) st)
          else going (record st { children = align_lagging_cursors sc i pivot_doc (s ∷ ss) })

      unfoldable pub sorted_round : List S → Run F S → Outcome F S
      unfolding pivot_round find_pivot
      sorted_round [] st = ended (record st { children = [] })
      sorted_round (s ∷ ss) st = pivot_round s ss (find_pivot st.theta fl.zero_f (s ∷ ss)) st

      unfoldable pub round : Run F S → Outcome F S
      unfolding sorted_round drop_ended
      round st = sorted_round (drop_ended sc (lib.sort st.children)) st

      abbrev pub go_on : (Run F S → Run F S) → Outcome F S → Run F S
      go_on again (ended st) = st
      go_on again (going st) = again st

      -- `while (true)`
      unfoldable pub wand_loop : ℕ → Run F S → Run F S
      unfolding round
      wand_loop zero st = st
      wand_loop (suc fuel) st = go_on (λ r. wand_loop fuel r) (round st)

      -- Each round moves a child on, and a child has fewer than 2 ^ 32 documents.
      unfoldable pub max_rounds : ℕ → ℕ
      max_rounds n = n * 2 ^ 32 + 1

      -- The loop that empties the heap, `rounds` of it.
      unfoldable pub pop_all : ℕ → List (Hit F) → List (Hit F)
      pop_all zero heap = []
      pop_all (suc rounds) [] = []
      pop_all (suc rounds) (e ∷ es) = let top = lib.take_top e es in top.0 ∷ pop_all rounds top.1

      unfoldable pub run_wand : List S → Run F S
      unfolding wand_loop max_rounds
      run_wand children =
          let st : Run F S = record {
            children = children;
            heap = [];
            theta = fl.zero_f;
            blocks_skipped = 0;
          } in
          if top_k == 0 then st else wand_loop (max_rounds (length children)) st

      unfoldable pub living : List S → List S
      living [] = []
      living (s ∷ ss) = if sc.cursor.is_end s then living ss else s ∷ living ss

      unfoldable pub max_sum : F → List S → F
      max_sum acc [] = acc
      max_sum acc (s ∷ ss) = max_sum (fl.add_f acc (sc.max_score s)) ss

      -- The constructor.
      unfoldable pub new : List S → WandScorer F
      unfolding run_wand pop_all sort_hits living max_sum first_doc first_score
      new children =
          let left = living children in
          let st = run_wand left in
          let hits = reverse (pop_all (length st.heap) st.heap) in
          let by_doc = sort_hits hits in
          record {
            score_order_hits = hits;
            doc_order_hits = by_doc;
            max_score = max_sum fl.zero_f left;
            blocks_skipped = st.blocks_skipped;
            cur_idx = 0;
            cur_doc = first_doc by_doc;
            cur_score = first_score fl.zero_f by_doc;
          }
