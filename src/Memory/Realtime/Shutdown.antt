-- ===== src/Memory/Realtime/Shutdown.antt =====
-- The threads are shut down, then the worker comes to an empty queue.
use piggy_engine.Prelude.{
  ℕ, zero, suc, ◌+◌, ◌-◌, ◌<◌, List, [], ◌∷◌, Bool, true, ◌≡◌, refl, sym, ap, ◌∙◌, inl, inr, ◌⊎◌,
  subst, arith, min,
}
use piggy_engine.Prelude.{◌==◌, ==_iff, length, take, drop, take-nil, drop-nil, length-drop, get_or}
use piggy_engine.Memory.FlushQueue.{FlushQueue, take_batch}
use piggy_engine.Memory.Realtime.World.{StoredDoc, FrozenEntry, Reader, memory, disk, World}
use piggy_engine.Memory.Realtime.Thread.{RtIndexThread}
use piggy_engine.Memory.Realtime.Thread as Thread
use piggy_engine.Memory.Realtime.Worker.{take_next, process_batch, unless_empty, drain}
use piggy_engine.Memory.Realtime.Manager.{Work, RealtimeIndexManager, shutdown_all, work_all}
use piggy_engine.Memory.Realtime.Visible.{tally, visible, reads}
use piggy_engine.Memory.Realtime.Tracked.{IsTracked-own}
use piggy_engine.Memory.Realtime.Commit.{held, process_batch-IsCommitted}
use piggy_engine.Memory.Realtime.Threads.{writes, keepers, Tracked, shown, shutdown-IsShutDown}
use piggy_engine.Memory.Realtime.Work.{held-take, accounted, HeldBy, work_all-IsWorked}
use piggy_engine.Memory.Realtime.Laws.{live}

list_cases : {A : Type 0} (l : List A) → (l ≡ []) ⊎ ((x : A) × (xs : List A) × (l ≡ x ∷ xs))
list_cases [] = inl refl
list_cases (x ∷ xs) = inr (x, xs, refl)

take-suc :
    {A : Type 0} (n : ℕ) (x : A) (xs : List A) → 0 < n → take n (x ∷ xs) ≡ x ∷ take (n - 1) xs
take-suc zero x xs h = absurd (omega arith)
take-suc (suc n) x xs h = let e : suc n - 1 ≡ n = omega arith in rw e refl

module _ {D : Type 0} where
  -- Where the segments in memory that are still read are empty, nothing is seen there.
  pub visible-none :
      (q : D → Bool) (segs : List (List (StoredDoc D))) (rs : List (Reader D))
      → ((p : ℕ) → 0 < reads p rs → get_or segs p [] ≡ [])
      → visible q segs rs ≡ 0
  unfolding visible reads tally
  visible-none q segs [] empty = refl
  visible-none q segs (memory k ∷ rs) empty =
      let self : (k == k) ≡ true = (==_iff k k).1 refl in
      let none : get_or segs k [] ≡ [] = empty k (rw self (omega arith)) in
      rw none (omega (arith, visible-none q segs rs (λ p some. empty p (omega (arith, some)))))
  visible-none q segs (disk id ∷ rs) empty =
      visible-none q segs rs (λ p some. empty p (omega (arith, some)))

  module _ (between : ℕ → List Work) where
    -- When all threads are shut down nobody writes; the worker may have worked between.
    pub record IsShut (m : RealtimeIndexManager D) (r : List RtIndexThread × RealtimeIndexManager D)
        : Type 0 where
      pub tracked : HeldBy (λ p. 0) r.1
      pub same_accounted : (q : D → Bool) → accounted q r.1 ≡ accounted q m

    pub shutdown_all-IsShut :
        (ts : List RtIndexThread) (i : ℕ) (m : RealtimeIndexManager D)
        → HeldBy (λ p. live p ts) m
        → IsShut m (shutdown_all between ts i m)
    unfolding shutdown_all live
    shutdown_all-IsShut [] i m v =
        let h = work_all-IsWorked (λ p. 0) (between i) m v in
        record { tracked = h.tracked; same_accounted = h.same_accounted }
    shutdown_all-IsShut (t ∷ ts) i m v =
        let h = work_all-IsWorked (λ p. live p (t ∷ ts)) (between i) m v in
        let m1 = work_all (between i) m in
        let rest : ℕ → ℕ = λ p. live p ts + held p m1.in_flight in
        let a = shutdown-IsShutDown t m1.world rest (
          IsTracked-own _ (keepers (λ p. writes p t) rest m1.world) (λ p. omega arith) h.tracked) in
        let w1 = (Thread.shutdown t m1.world).1 in
        let m2 : RealtimeIndexManager D = record m1 { world = w1 } in
        let l =
          shutdown_all-IsShut ts (i + 1) m2
            (IsTracked-own (keepers (λ p. 0) rest w1) _ (λ p. omega arith) a.tracked) in
        record {
          tracked = l.tracked;
          same_accounted = λ q. l.same_accounted q ∙ a.same_shown q ∙ h.same_accounted q;
        }

  -- The second loop of the worker comes to an empty queue.
  pub record IsDrained (w w' : World D) : Type 0 where
    pub tracked : Tracked w' (λ p. 0)
    pub same_shown : (q : D → Bool) → shown q w' ≡ shown q w
    pub nothing_left : w'.flush_queue.queue ≡ []

  pub drain-IsDrained :
      (rounds : ℕ) (w : World D)
      → length w.flush_queue.queue < rounds
      → Tracked w (λ p. held p w.flush_queue.queue)
      → IsDrained w (drain rounds w)
  unfolding drain take_next take_batch
  drain-IsDrained zero w enough v = absurd (omega arith)
  drain-IsDrained (suc rounds) w enough v =
      let queue = w.flush_queue.queue in
      let n = min (length queue) 3 in
      let r = take_next w in
      let w1 = process_batch r.0 r.1 in
      let going_on = drain rounds w1 in
      elim (list_cases queue) [
        | inl e ↦
            let batch : take n queue ≡ [] = rw e (sym (take-nil 0)) in
            let left : drop n queue ≡ [] = rw e (drop-nil 0) in
            subst (λ b. IsDrained w (unless_empty b r.1 going_on)) (sym batch)
              (record {
                tracked =
                    IsTracked-own _ (λ p. 0) (λ p. sym (ap (held p) e ∙ unfold held in refl)) v;
                same_shown = λ q. refl;
                nothing_left = left;
              })
        | inr (x, xs, e) ↦
            let size : length queue ≡ suc (length xs) = ap length e in
            let batch : take n queue ≡ x ∷ take (n - 1) xs =
              ap (take n) e ∙ take-suc n x xs (omega (arith, size)) in
            let c =
              process_batch-IsCommitted r.0 r.1 (λ p. held p (drop n queue))
                (IsTracked-own _ (λ p. held p (take n queue) + held p (drop n queue))
                  (λ p. held-take p n queue) v) in
            let left : w1.flush_queue.queue ≡ drop n queue =
              ap (λ (k : FlushQueue FrozenEntry). k.queue) c.queue_kept in
            let h =
              drain-IsDrained rounds w1
                (omega (arith, ap length left, length-drop n queue, size, enough))
                (IsTracked-own _ _ (λ p. ap (held p) left) c.tracked) in
            subst (λ b. IsDrained w (unless_empty b r.1 going_on)) (sym batch)
              (record {
                tracked = h.tracked;
                same_shown = λ q. h.same_shown q ∙ c.still_counted q;
                nothing_left = h.nothing_left;
              })
      ]
