-- ===== src/Query/Search.antt =====
-- modules/query/src/index_searcher.cpp: the loop of a search over one segment that drives the
-- scorer tree of a conjunction or an exclusion.
pub mod Laws
pub mod Boolean
pub mod Disk
pub mod Merge
pub mod Zigzag
pub mod Terms
use piggy_engine.Prelude.{ℕ, zero, suc, ◌^◌, List, [], ◌∷◌, Bool}
use piggy_engine.Prelude.{if◌then◌else◌}
use piggy_engine.Query.Cursor.{Cursor, Scorer}

-- `SearchResult`; its other fields are read from the segment at `doc_id`.
pub record SearchResult (F : Type 0) : Type 0 where
  pub doc_id : ℕ
  pub score : F

-- There are fewer documents than ids.
unfoldable pub max_results : ℕ
max_results = 2 ^ 32

-- `accepts` is `seg.isAlive(did) && (!filter || passesFilter(seg, did, *filter))`; the results in
-- the order of `push_back`; what the function does with them after the loop, `std::sort` by score
-- and `resize(top_k)`, is left out. Each round moves the root on.
unfoldable pub drive : {F S : Type 0} → Scorer F S → (ℕ → Bool) → ℕ → S → List (SearchResult F)
drive sc accepts zero root = []
drive sc accepts (suc fuel) root =
    let did = sc.cursor.doc_id root in
    let rest = drive sc accepts fuel (sc.cursor.next root).1 in
    let result : SearchResult _ = record { doc_id = did; score = sc.score root } in
    if sc.cursor.is_end root then [] else if accepts did then result ∷ rest else rest
