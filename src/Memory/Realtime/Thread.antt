-- ===== src/Memory/Realtime/Thread.antt =====
-- modules/memory/src/rt_index_thread.cpp
use piggy_engine.Prelude.{ℕ, List, Bool, true, false, Option, none, some}
use piggy_engine.Prelude.{length, if◌then◌else◌, ltb}
use piggy_engine.Prelude.Words.{add32}
use piggy_engine.Memory.FlushQueue.{push}
use piggy_engine.Memory.Realtime.World.{
  StoredDoc, FrozenEntry, World, count_id, remove_reader, content, write_doc, new_segment,
}

pub record RtIndexThread : Type 0 where
  pub active_seg : ℕ
  pub active_seg_id : ℕ
  pub next_local_id : ℕ
  pub is_shut_down : Bool

module _ {D : Type 0} where
  -- the constructor
  unfoldable pub new : World D → RtIndexThread × World D
  unfolding count_id new_segment
  new w = (
    record {
      active_seg = length w.segments;
      active_seg_id = w.global_seg_id;
      next_local_id = 1;
      is_shut_down = false;
    },
    new_segment (count_id w),
  )

  unfoldable pub enqueue : FrozenEntry → World D → World D
  unfolding push
  enqueue e w = record w { flush_queue = push e w.flush_queue }

  -- The new segment is known to the searcher before the old one goes to the queue.
  unfoldable pub freeze : RtIndexThread → World D → RtIndexThread × World D
  unfolding new_segment count_id enqueue
  freeze t w =
      let entry : FrozenEntry = record {
        segment = t.active_seg;
        seg_id = t.active_seg_id;
        doc_count = length (content w t.active_seg);
      } in
      (
        record t {
          active_seg = length w.segments;
          active_seg_id = w.global_seg_id;
          next_local_id = 1;
        },
        enqueue entry (new_segment (count_id w)),
      )

  -- `should_freeze` stands for the thresholds on the memory that the active segment uses and the
  -- load of its hash table. `none` is the `logic_error`.
  unfoldable pub add_document :
      (List (StoredDoc D) → Bool) → D → RtIndexThread → World D → Option (RtIndexThread × World D)
  unfolding write_doc freeze
  add_document should_freeze doc t w =
      let w' = write_doc t.active_seg (record { doc_id = t.next_local_id; doc = doc }) w in
      let t' = record t { next_local_id = add32 t.next_local_id 1 } in
      if t.is_shut_down
      then none
      else some (if should_freeze (content w' t.active_seg) then freeze t' w' else (t', w'))

  unfoldable pub shutdown : RtIndexThread → World D → RtIndexThread × World D
  unfolding freeze remove_reader
  shutdown t w =
      let t' = record t { is_shut_down = true } in
      if t.is_shut_down
      then (t, w)
      else if ltb 0 (length (content w t.active_seg))
      then freeze t' w
      else (t', remove_reader t.active_seg w)
