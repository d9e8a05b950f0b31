-- ===== src/Memory/Realtime/World.antt =====
-- What the threads share: the segments in memory, `all_readers_` of the searcher
-- (modules/query/src/index_searcher.cpp), the flush queue and the counter of segment ids. A segment
-- is its documents with their ids, in the order in which they came.
use piggy_engine.Prelude.{ℕ, List, [], ◌∷◌, ◌++◌, Bool, false}
use piggy_engine.Prelude.{length, get_or, set, if◌then◌else◌, ◌==◌}
use piggy_engine.Prelude.Words.{add32}
use piggy_engine.Memory.FlushQueue.{FlushQueue}

pub record StoredDoc (D : Type 0) : Type 0 where
  pub doc_id : ℕ
  pub doc : D

-- A `FrozenEntry` with its `FrozenSegStats`: the address of the segment in memory and of its reader.
pub record FrozenEntry : Type 0 where
  pub segment : ℕ
  pub seg_id : ℕ
  pub doc_count : ℕ

-- A reader is a pointer: one over a segment in memory is known by the address of the segment, one
-- over a segment on disk by its id.
pub data Reader (D : Type 0) : Type 0 where
  memory : ℕ → Reader D
  disk : ℕ → Reader D

-- A batch that was committed: the id of its segment on disk, and the documents that its segments in
-- memory had.
pub record Commit (D : Type 0) : Type 0 where
  pub final_id : ℕ
  pub replaced : List (StoredDoc D)

pub record World (D : Type 0) : Type 0 where
  pub global_seg_id : ℕ
  -- the segments in memory, by address
  pub segments : List (List (StoredDoc D))
  pub all_readers : List (Reader D)
  pub flush_queue : FlushQueue FrozenEntry
  -- the history of commits, the last one first, which no code reads
  pub commits : List (Commit D)

module _ {D : Type 0} where
  -- `global_seg_id_.fetch_add(1)`, after which the old value is used
  unfoldable pub count_id : World D → World D
  count_id w = record w { global_seg_id = add32 w.global_seg_id 1 }

  unfoldable pub add_reader : Reader D → World D → World D
  add_reader r w = record w { all_readers = w.all_readers ++ r ∷ [] }

  unfoldable pub is_memory : ℕ → Reader D → Bool
  is_memory p (memory q) = q == p
  is_memory p (disk id) = false

  -- `erase(remove(…))`
  unfoldable pub remove : ℕ → List (Reader D) → List (Reader D)
  remove p [] = []
  remove p (r ∷ rs) = let rest = remove p rs in if is_memory p r then rest else r ∷ rest

  unfoldable pub remove_reader : ℕ → World D → World D
  remove_reader p w = record w { all_readers = remove p w.all_readers }

  unfoldable pub remove_all : List ℕ → List (Reader D) → List (Reader D)
  remove_all [] rs = rs
  remove_all (p ∷ ps) rs = remove_all ps (remove p rs)

  unfoldable pub commit_disk_segment : Reader D → List ℕ → World D → World D
  commit_disk_segment new_disk frozen_to_remove w = record w {
    all_readers = remove_all frozen_to_remove (w.all_readers ++ new_disk ∷ []);
  }

  -- the documents of the segment at an address
  abbrev pub content : World D → ℕ → List (StoredDoc D)
  content w p = get_or w.segments p []

  -- `MemorySegment::addDocument`
  unfoldable pub write_doc : ℕ → StoredDoc D → World D → World D
  write_doc p d w = record w { segments = set w.segments p (content w p ++ d ∷ []) }

  -- A new segment with a reader that the searcher knows; its address is the next free one.
  unfoldable pub new_segment : World D → World D
  unfolding add_reader
  new_segment w =
      add_reader (memory (length w.segments)) (record w { segments = w.segments ++ [] ∷ [] })
