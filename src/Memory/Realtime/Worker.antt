-- ===== src/Memory/Realtime/Worker.antt =====
-- modules/memory/src/flush_worker.cpp: batches of frozen segments give way to segments on disk.
use piggy_engine.Prelude.{ℕ, zero, suc, List, [], ◌∷◌, ◌++◌, map}
use piggy_engine.Memory.FlushQueue.{take_batch}
use piggy_engine.Memory.Realtime.World.{
  StoredDoc, FrozenEntry, disk, World, count_id, content, commit_disk_segment,
}

module _ {D : Type 0} where
  -- Phase 1 takes an id for each frozen segment.
  unfoldable pub count_tmp : List FrozenEntry → World D → World D
  unfolding count_id
  count_tmp [] w = w
  count_tmp (e ∷ es) w = count_tmp es (count_id w)

  -- Phase 2: one segment is used as it is, several are merged under one more id.
  unfoldable pub final_id : ℕ → List FrozenEntry → World D → ℕ × World D
  unfolding count_id
  final_id first [] w = (w.global_seg_id, count_id w)
  final_id first (e ∷ []) w = (first, w)
  final_id first (e ∷ f ∷ es) w = (w.global_seg_id, count_id w)

  -- the documents of the batch in memory, segment after segment
  unfoldable pub batch_docs : World D → List FrozenEntry → List (StoredDoc D)
  batch_docs w [] = []
  batch_docs w (e ∷ es) = content w e.segment ++ batch_docs w es

  -- the history, with this commit
  abbrev pub record_commit : ℕ → List (StoredDoc D) → World D → World D
  record_commit id docs w = record w {
    commits = record { final_id = id; replaced = docs } ∷ w.commits;
  }

  -- What `flushToDisk` and `mergeAll` write, which the reader of the final segment reads, is left
  -- out: here the batch goes from the readers in memory to the one on disk.
  unfoldable pub process_batch : List FrozenEntry → World D → World D
  unfolding count_tmp final_id batch_docs commit_disk_segment
  process_batch batch w =
      let r = final_id w.global_seg_id batch (count_tmp batch w) in
      commit_disk_segment (disk r.0) (map (λ (e : FrozenEntry). e.segment) batch)
        (record_commit r.0 (batch_docs w batch) r.1)

  -- The worker takes its next batch of at most three.
  unfoldable pub take_next : World D → List FrozenEntry × World D
  unfolding take_batch
  take_next w = let r = take_batch 3 w.flush_queue in (r.0, record w { flush_queue = r.1 })

  unfoldable pub process_unless_empty : List FrozenEntry → World D → World D
  unfolding process_batch
  process_unless_empty [] w = w
  process_unless_empty (e ∷ es) w = process_batch (e ∷ es) w

  abbrev pub unless_empty : List FrozenEntry → World D → World D → World D
  unless_empty [] ended going_on = ended
  unless_empty (e ∷ es) ended going_on = going_on

  -- The second loop of `run`, which ends at an empty batch.
  unfoldable pub drain : ℕ → World D → World D
  unfolding take_next process_batch
  drain zero w = w
  drain (suc rounds) w =
      let r = take_next w in
      let going_on = drain rounds (process_batch r.0 r.1) in unless_empty r.0 r.1 going_on
