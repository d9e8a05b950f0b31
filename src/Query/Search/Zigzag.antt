-- ===== src/Query/Search/Zigzag.antt =====
-- modules/query/src/index_searcher.cpp: `searchAND`, the intersection of posting lists by a driver,
-- the shortest list, and the others, which catch up with it.
pub mod Round
pub mod Laws
use piggy_engine.Prelude.{ℕ, zero, suc, ◌+◌, ◌^◌, List, [], ◌∷◌, ◌++◌, Bool, not}
use piggy_engine.Prelude.{if◌then◌else◌, ◌==◌}
use piggy_engine.Query.Cursor.{Cursor}

-- How the loop over `i` ends: `done`, the driver moved on, or all iterators on the target.
pub data Pass (S : Type 0) : Type 0 where
  done : Pass S
  moved : S → List S → Pass S
  matched : List S → Pass S

module _ {S : Type 0} (c : Cursor S) where
  -- The loop over `i`: the driver, the iterators before `i` and those from `i` on.
  unfoldable pub catch_up_all : ℕ → S → List S → List S → Pass S
  catch_up_all target driver before [] = matched before
  catch_up_all target driver before (s ∷ ss) =
      let r = c.advance target s in
      let jumped = c.advance (c.doc_id r.1) driver in
      let later = catch_up_all target driver (before ++ r.1 ∷ []) ss in
      if not r.0
      then done
      else if c.doc_id r.1 == target
      then later
      else if jumped.0
      then moved jumped.1 (before ++ r.1 ∷ ss)
      else done

  -- A round of the outer loop; `again` are the rounds that follow it.
  unfoldable pub round : (ℕ → Bool) → (S → List S → List ℕ) → S → Pass S → List ℕ
  round accepts again driver done = []
  round accepts again driver (moved jumped rest) = again jumped rest
  round accepts again driver (matched rest) =
      let did = c.doc_id driver in
      let later = again (c.advance (did + 1) driver).1 rest in
      if accepts did then did ∷ later else later

  -- The loop `while (!done && !iters[0]->isEnd())`, with the documents that it puts into
  -- `intersection`. `accepts` is `seg.isAlive(did) && (!filter || passesFilter(seg, did, *filter))`.
  unfoldable pub zigzag : (ℕ → Bool) → ℕ → S → List S → List ℕ
  unfolding round catch_up_all
  zigzag accepts zero driver rest = []
  zigzag accepts (suc fuel) driver rest =
      let found =
        round accepts (λ d r. zigzag accepts fuel d r) driver
          (catch_up_all (c.doc_id driver) driver [] rest) in
      if c.is_end driver then [] else found

-- There are fewer documents than ids.
unfoldable pub max_rounds : ℕ
max_rounds = 2 ^ 32
