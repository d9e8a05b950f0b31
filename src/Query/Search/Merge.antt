-- ===== src/Query/Search/Merge.antt =====
-- modules/query/src/index_searcher.cpp: `mergeTopK`, which puts the results of the segments together.
-- The model reads one field of a result, `ext_id`. `std::sort` by falling score leaves results of
-- equal score in any order, so the sorted list is a parameter. A negative `top_k`, for which
-- `reserve` throws, is left out.
pub mod Laws
use piggy_engine.Prelude.{ℕ, ◌+◌, List, [], ◌∷◌, ◌++◌, Bool, not, ◌&&◌}
use piggy_engine.Prelude.{length, if◌then◌else◌, leb, ◌==◌}
use piggy_engine.Query.Docs.{mem}

module _ {R : Type 0} (ext_id : R → ℕ) where
  -- the two loops that fill `all`
  unfoldable pub put_together : List (List R) → List R
  put_together [] = []
  put_together (rs ∷ more) = rs ++ put_together more

  -- a result whose `ext_id` was there before
  unfoldable pub is_repeated : List ℕ → R → Bool
  is_repeated seen r = not (ext_id r == 0) && mem (ext_id r) seen

  unfoldable pub see : List ℕ → R → List ℕ
  see seen r = if ext_id r == 0 then seen else ext_id r ∷ seen

  -- The loop over `all`, with the set `seen` and `deduped` so far.
  unfoldable pub dedupe_loop : ℕ → List ℕ → List R → List R → List R
  unfolding is_repeated see
  dedupe_loop top_k seen [] deduped = deduped
  dedupe_loop top_k seen (r ∷ rs) deduped =
      let skipped = dedupe_loop top_k seen rs deduped in
      let added = deduped ++ r ∷ [] in
      let more = dedupe_loop top_k (see seen r) rs added in
      if is_repeated seen r then skipped else if leb top_k (length added) then added else more

  module _ (sort_by_score : List R → List R) where
    unfoldable pub merge_top_k : ℕ → List (List R) → List R
    unfolding dedupe_loop put_together
    merge_top_k top_k per_seg_results =
        dedupe_loop top_k [] (sort_by_score (put_together per_seg_results)) []
