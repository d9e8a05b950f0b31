-- ===== src/Query/Wand/Iteration.antt =====
-- modules/query/src/wand_scorer.cpp: the hits of a `WANDScorer` and the walk over them.
use piggy_engine.Prelude.{ℕ, suc, ◌+◌, List, [], ◌∷◌, map, Bool, true, false}
use piggy_engine.Prelude.{length, drop, if◌then◌else◌, ltb, leb}
use piggy_engine.Core.{invalid_doc}
use piggy_engine.Query.Cursor.{Cursor, Scorer}
use piggy_engine.Query.Search.{SearchResult}

pub record Hit (F : Type 0) : Type 0 where
  pub doc_id : ℕ
  pub score : F

pub record WandScorer (F : Type 0) : Type 0 where
  pub score_order_hits : List (Hit F)
  pub doc_order_hits : List (Hit F)
  pub max_score : F
  pub blocks_skipped : ℕ
  pub cur_idx : ℕ
  pub cur_doc : ℕ
  pub cur_score : F

-- `std::sort` by document; no two hits have the same one.
unfoldable pub insert_hit : {F : Type 0} → Hit F → List (Hit F) → List (Hit F)
insert_hit h [] = h ∷ []
insert_hit h (e ∷ es) =
    let rest = insert_hit h es in if ltb h.doc_id e.doc_id then h ∷ e ∷ es else e ∷ rest

unfoldable pub sort_hits : {F : Type 0} → List (Hit F) → List (Hit F)
unfolding insert_hit
sort_hits [] = []
sort_hits (h ∷ hs) = insert_hit h (sort_hits hs)

-- The document and the score of the first hit, or what they are without one.
unfoldable pub first_doc : {F : Type 0} → List (Hit F) → ℕ
first_doc [] = invalid_doc
first_doc (h ∷ hs) = h.doc_id

unfoldable pub first_score : {F : Type 0} → F → List (Hit F) → F
first_score before [] = before
first_score before (h ∷ hs) = h.score

-- how many hits the loop of `advance` goes past
unfoldable pub skipped : {F : Type 0} → ℕ → List (Hit F) → ℕ
skipped target [] = 0
skipped target (h ∷ hs) =
    let rest = skipped target hs in if ltb h.doc_id target then suc rest else 0

module _ {F : Type 0} where
  -- `cur_idx_` and what stands there
  unfoldable pub stand_at : ℕ → WandScorer F → WandScorer F
  unfolding first_doc first_score
  stand_at i s =
      let hits = drop i s.doc_order_hits in
      record s { cur_idx = i; cur_doc = first_doc hits; cur_score = first_score s.cur_score hits }

  unfoldable pub next : WandScorer F → Bool × WandScorer F
  unfolding stand_at
  next s =
      if leb (length s.doc_order_hits) (s.cur_idx + 1)
      then (false, record s { cur_doc = invalid_doc; cur_idx = length s.doc_order_hits })
      else (true, stand_at (s.cur_idx + 1) s)

  unfoldable pub advance : ℕ → WandScorer F → Bool × WandScorer F
  unfolding stand_at skipped
  advance target s =
      let it = s.cur_idx + skipped target (drop s.cur_idx s.doc_order_hits) in
      if leb (length s.doc_order_hits) it
      then (false, record s { cur_doc = invalid_doc; cur_idx = it })
      else (true, stand_at it s)

  unfoldable pub is_end : WandScorer F → Bool
  is_end s = leb (length s.doc_order_hits) s.cur_idx

  abbrev pub cursor : Cursor (WandScorer F)
  cursor = record { doc_id = λ s. s.cur_doc; is_end = is_end; next = next; advance = advance }

  -- The blocks are those of the base class.
  abbrev pub scorer : Scorer F (WandScorer F)
  scorer = record {
    cursor = cursor;
    score = λ s. s.cur_score;
    max_score = λ s. s.max_score;
    block_max_score = λ s. s.max_score;
    block_max_doc_id = λ s. invalid_doc;
  }

-- `collectTopK`
unfoldable pub collect_top_k : {F : Type 0} → WandScorer F → List (SearchResult F)
collect_top_k s = map (λ h. record { doc_id = h.doc_id; score = h.score }) s.score_order_hits
