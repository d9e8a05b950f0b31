-- ===== src/Common/BlockingQueue/Fifo.antt =====
-- The queue neither loses nor doubles nor reorders an item, and keeps its bound.
use piggy_engine.Prelude.{ℕ, ◌≤◌, List, [], ◌∷◌, ◌++◌, ◌≡◌, refl, sym, ap, ◌∙◌, arith, append_assoc}
use piggy_engine.Prelude.{ltb, ltb→lt, length, length-append, Bool-cases, inl, inr}
use piggy_engine.Common.BlockingQueue.{
  new, push, pop, pop_from, close, Call, push_call, pop_call, close_call, History, after_push,
  after_pop, step, run, start,
}

module _ {T : Type 0} (capacity : ℕ) where
  pub record IsFifo (h : History T) : Type 0 where
    pub order : h.taken_in ≡ h.handed_out ++ h.queue.buf
    pub bound : length h.queue.buf ≤ h.queue.cap
    pub fixed : h.queue.cap ≡ capacity

  push-IsFifo :
      (item : T) (h : History T) → IsFifo h → IsFifo (after_push item h (push item h.queue))
  unfolding after_push push
  push-IsFifo item h v = elim (Bool-cases h.queue.closed) [
    | inl shut ↦ elim (Bool-cases (ltb (length h.queue.buf) h.queue.cap)) [
      | inl room ↦ rw (room, shut) (record { order = v.order; bound = v.bound; fixed = v.fixed })
      | inr full ↦ rw (full, shut) (record { order = v.order; bound = v.bound; fixed = v.fixed })
    ]
    | inr still ↦ elim (Bool-cases (ltb (length h.queue.buf) h.queue.cap)) [
      | inl room ↦
          rw (room, still)
            (record {
              order =
                  ap (λ (t : List T). t ++ item ∷ []) v.order
                  ∙ append_assoc h.handed_out h.queue.buf (item ∷ []);
              bound = omega (
                arith,
                length-append h.queue.buf (item ∷ []),
                ltb→lt (length h.queue.buf) h.queue.cap room,
              );
              fixed = v.fixed;
            })
      | inr full ↦ rw (full, still) (record { order = v.order; bound = v.bound; fixed = v.fixed })
    ]
  ]

  pop-IsFifo :
      (h : History T) (items : List T)
      → h.queue.buf ≡ items
      → IsFifo h
      → IsFifo (after_pop h (pop_from h.queue items))
  unfolding after_pop pop_from
  pop-IsFifo h [] f v = elim (Bool-cases h.queue.closed) [
    | inl shut ↦ rw shut (record { order = v.order; bound = v.bound; fixed = v.fixed })
    | inr still ↦ rw still (record { order = v.order; bound = v.bound; fixed = v.fixed })
  ]
  pop-IsFifo h (item ∷ items) f v =
      let size : length h.queue.buf ≡ length (item ∷ items) = ap length f in
      record {
        order =
            v.order
            ∙ ap (λ (t : List T). h.handed_out ++ t) f
            ∙ sym (append_assoc h.handed_out (item ∷ []) items);
        bound = omega (arith, v.bound, size);
        fixed = v.fixed;
      }

  step-IsFifo : (c : Call T) (h : History T) → IsFifo h → IsFifo (step c h)
  unfolding step pop close
  step-IsFifo (push_call item) h v = push-IsFifo item h v
  step-IsFifo pop_call h v = pop-IsFifo h h.queue.buf refl v
  step-IsFifo close_call h v = record { order = v.order; bound = v.bound; fixed = v.fixed }

  run-IsFifo_from : (cs : List (Call T)) (h : History T) → IsFifo h → IsFifo (run cs h)
  unfolding run
  run-IsFifo_from [] h v = v
  run-IsFifo_from (c ∷ cs) h v = run-IsFifo_from cs (step c h) (step-IsFifo c h v)

  -- However the threads interleave their calls on a new queue, the items that pushes took in are
  -- those that pops handed out, in the same order, followed by those that are still in the queue, and
  -- the queue never holds more than its capacity.
  pub run-IsFifo : (cs : List (Call T)) → IsFifo (run cs (start capacity))
  unfolding start new
  run-IsFifo cs =
      run-IsFifo_from cs (start capacity)
        (record { order = refl; bound = omega arith; fixed = refl })
