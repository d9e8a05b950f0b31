-- ===== src/Memory/FlushQueue/Drain.antt =====
-- No frozen segment is lost between the threads.
use piggy_engine.Prelude.{
  ℕ, ◌+◌, ◌-◌, ◌≤◌, List, [], ◌∷◌, ◌++◌, ◌≡◌, refl, sym, ap, ◌∙◌, arith, append_assoc, min,
}
use piggy_engine.Prelude.{length, take, drop, length-take, length-drop, take-append-drop}
use piggy_engine.Memory.FlushQueue.{
  FlushQueue, push, take_batch, shutdown, size, Call, push_call, take_call, shutdown_call, History,
  step, run, start,
}

module _ {T : Type 0} where
  -- The entries that were pushed are those that were flushed, followed by those in the queue.
  abbrev pub IsKept : History T → Type 0
  IsKept h = h.pushed ≡ h.flushed ++ h.now.queue

  step-IsKept : (c : Call T) (h : History T) → IsKept h → IsKept (step c h)
  unfolding step push take_batch shutdown
  step-IsKept (push_call entry) h v =
      ap (λ (t : List T). t ++ entry ∷ []) v ∙ append_assoc h.flushed h.now.queue (entry ∷ [])
  step-IsKept (take_call max_batch) h v =
      let count = min (length h.now.queue) max_batch in
      v
      ∙ ap (λ (t : List T). h.flushed ++ t) (sym (take-append-drop count h.now.queue))
      ∙ sym (append_assoc h.flushed (take count h.now.queue) (drop count h.now.queue))
  step-IsKept shutdown_call h v = v

  run-IsKept_from : (cs : List (Call T)) (h : History T) → IsKept h → IsKept (run cs h)
  unfolding run
  run-IsKept_from [] h v = v
  run-IsKept_from (c ∷ cs) h v = run-IsKept_from cs (step c h) (step-IsKept c h v)

  -- However the threads interleave their calls on a new queue, before and after `shutdown`, the
  -- entries that batches took and then those that are still in the queue are all that were pushed, in
  -- order.
  pub run-IsKept : (cs : List (Call T)) → IsKept (run cs start)
  run-IsKept cs = run-IsKept_from cs start refl

  -- A batch has as many entries as it may and the queue can give, and what it leaves has the others;
  -- `shutdown` changes neither.
  pub size-take_batch :
      (max_batch : ℕ) (q : FlushQueue T)
      → let r = take_batch max_batch (shutdown q) in
        (length r.0 ≤ max_batch)
        × (length r.0 + size r.1 ≡ size q)
        × (size r.1 ≡ size q - max_batch)
  unfolding take_batch shutdown size
  size-take_batch max_batch q =
      let count = min (length q.queue) max_batch in
      let taken = length-take count q.queue in
      let left = length-drop count q.queue in (omega arith, omega arith, omega arith)
