-- ===== src/Memory/Realtime/Work.antt =====
-- What the worker does between the calls.
use piggy_engine.Prelude.{ℕ, ◌+◌, List, [], ◌∷◌, Bool, ◌≡◌, refl, sym, ap, ◌∙◌, arith, min}
use piggy_engine.Prelude.{length, take, drop, take-append-drop}
use piggy_engine.Memory.FlushQueue.{FlushQueue, take_batch}
use piggy_engine.Memory.Realtime.World.{FrozenEntry}
use piggy_engine.Memory.Realtime.Worker.{take_next}
use piggy_engine.Memory.Realtime.Manager.{
  Work, take as take_work, commit, RealtimeIndexManager, take_if_idle, take_step, commit_step,
  work_step, work_all,
}
use piggy_engine.Memory.Realtime.Tracked.{IsTracked-own}
use piggy_engine.Memory.Realtime.Commit.{held, process_unless_empty-IsCommitted}
use piggy_engine.Memory.Realtime.Threads.{keepers, Tracked, shown, held-append}

-- What the queue gives and what it keeps is what it had.
pub held-take :
    (p n : ℕ) (es : List FrozenEntry) → held p (take n es) + held p (drop n es) ≡ held p es
held-take p n es = sym (held-append p (take n es) (drop n es)) ∙ ap (held p) (take-append-drop n es)

module _ {D : Type 0} where
  abbrev pub accounted : (D → Bool) → RealtimeIndexManager D → ℕ
  accounted q m = shown q m.world

  abbrev pub HeldBy : (ℕ → ℕ) → RealtimeIndexManager D → Type 0
  HeldBy mine m = Tracked m.world (keepers mine (λ p. held p m.in_flight) m.world)

  -- What the worker does beside the threads, who keep `mine`.
  pub record IsWorked (mine : ℕ → ℕ) (m m' : RealtimeIndexManager D) : Type 0 where
    pub tracked : HeldBy mine m'
    pub same_accounted : (q : D → Bool) → accounted q m' ≡ accounted q m
    pub same_threads : m'.rt_threads ≡ m.rt_threads
    pub same_started : m'.started ≡ m.started
    pub same_stopped : m'.stopped ≡ m.stopped

  take_if_idle-IsWorked :
      (mine : ℕ → ℕ) (es : List FrozenEntry) (m : RealtimeIndexManager D)
      → m.in_flight ≡ es
      → HeldBy mine m
      → IsWorked mine m (take_if_idle es m)
  unfolding take_if_idle take_next take_batch
  take_if_idle-IsWorked mine (e ∷ es) m at v = record {
    tracked = v;
    same_accounted = λ q. refl;
    same_threads = refl;
    same_started = refl;
    same_stopped = refl;
  }
  take_if_idle-IsWorked mine [] m at v =
      let queue = m.world.flush_queue.queue in
      let n = min (length queue) 3 in
      record {
        tracked =
            IsTracked-own _ _
              (λ p.
                let none : held p m.in_flight ≡ 0 = rw at (unfold held in refl) in
                omega (arith, held-take p n queue, none))
              v;
        same_accounted = λ q. refl;
        same_threads = refl;
        same_started = refl;
        same_stopped = refl;
      }

  pub commit_step-IsWorked :
      (mine : ℕ → ℕ) (m : RealtimeIndexManager D) → HeldBy mine m → IsWorked mine m (commit_step m)
  unfolding commit_step held
  commit_step-IsWorked mine m v =
      let own = keepers mine (λ p. held p m.in_flight) m.world in
      let rest : ℕ → ℕ = λ p. mine p + held p m.world.flush_queue.queue in
      let h =
        process_unless_empty-IsCommitted m.in_flight m.world rest
          (IsTracked-own own _ (λ p. omega arith) v) in
      record {
        tracked =
            IsTracked-own rest _
              (λ p.
                let same = ap (λ (k : FlushQueue FrozenEntry). held p k.queue) h.queue_kept in
                omega (arith, same))
              h.tracked;
        same_accounted = h.still_counted;
        same_threads = refl;
        same_started = refl;
        same_stopped = refl;
      }

  pub work_step-IsWorked :
      (mine : ℕ → ℕ) (x : Work) (m : RealtimeIndexManager D)
      → HeldBy mine m
      → IsWorked mine m (work_step x m)
  unfolding work_step take_step
  work_step-IsWorked mine take_work m v = take_if_idle-IsWorked mine m.in_flight m refl v
  work_step-IsWorked mine commit m v = commit_step-IsWorked mine m v

  pub work_all-IsWorked :
      (mine : ℕ → ℕ) (xs : List Work) (m : RealtimeIndexManager D)
      → HeldBy mine m
      → IsWorked mine m (work_all xs m)
  unfolding work_all
  work_all-IsWorked mine [] m v = record {
    tracked = v;
    same_accounted = λ q. refl;
    same_threads = refl;
    same_started = refl;
    same_stopped = refl;
  }
  work_all-IsWorked mine (x ∷ xs) m v =
      let one = work_step-IsWorked mine x m v in
      let all = work_all-IsWorked mine xs (work_step x m) one.tracked in
      record {
        tracked = all.tracked;
        same_accounted = λ q. all.same_accounted q ∙ one.same_accounted q;
        same_threads = all.same_threads ∙ one.same_threads;
        same_started = all.same_started ∙ one.same_started;
        same_stopped = all.same_stopped ∙ one.same_stopped;
      }
