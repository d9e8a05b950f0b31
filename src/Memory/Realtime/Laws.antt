-- ===== src/Memory/Realtime/Laws.antt =====
-- No document is lost on its way to the disk.
use piggy_engine.Prelude.{
  ℕ, zero, suc, ◌+◌, ◌%◌, ◌<◌, List, [], ◌∷◌, Bool, true, false, ◌≡◌, refl, sym, ap, subst, ◌∙◌,
  arith, some,
}
use piggy_engine.Prelude.{if◌then◌else◌, ◌==◌, All, length}
use piggy_engine.Prelude.Words.{u64}
use piggy_engine.Prelude.Counts.{count}
use piggy_engine.Memory.Realtime.World.{StoredDoc, World, count_id, new_segment, add_reader}
use piggy_engine.Memory.Realtime.Thread.{RtIndexThread}
use piggy_engine.Memory.Realtime.Thread as Thread
use piggy_engine.Memory.Realtime.Manager.{
  Work, RealtimeIndexManager, make_threads, add_to, add_document, work_step, Event, add, work, step,
  run,
}
use piggy_engine.Memory.Realtime.Tracked.{IsTracked-own, new_segment-IsTracked, visible-new_segment}
use piggy_engine.Memory.Realtime.Commit.{held}
use piggy_engine.Memory.Realtime.Work.{accounted, work_step-IsWorked}
use piggy_engine.Memory.Realtime.Threads.{writes, keepers, Tracked, shown, add_document-IsAdded}

-- how many of the threads write to the segment at `p`
unfoldable pub live : ℕ → List RtIndexThread → ℕ
live p [] = 0
live p (t ∷ ts) = writes p t + live p ts

abbrev pub AllOpen : List RtIndexThread → Type 0
AllOpen = All (λ (t : RtIndexThread). t.is_shut_down ≡ false)

-- the documents that the events add, in order
unfoldable pub added : {D : Type 0} → List (Event D) → List D
added [] = []
added (add d ∷ es) = d ∷ added es
added (work x ∷ es) = added es

module _ {D : Type 0} where
  pub make_threads-Tracked :
      (n : ℕ) (w : World D) (rest : ℕ → ℕ)
      → Tracked w (keepers (λ p. 0) rest w)
      → let r = make_threads n w in
        Tracked r.1 (keepers (λ p. live p r.0) rest r.1)
        × ((q : D → Bool) → shown q r.1 ≡ shown q w)
        × AllOpen r.0
        × (length r.0 ≡ n)
  unfolding make_threads Thread.new live count_id new_segment add_reader
  make_threads-Tracked zero w rest v = (v, λ q. refl, tt, refl)
  make_threads-Tracked (suc n) w rest v =
      let w1 = new_segment (count_id w) in
      let k = length w.segments in
      let rest1 : ℕ → ℕ = λ p. (if k == p then 1 else 0) + rest p in
      let v1 : Tracked w1 (keepers (λ p. 0) rest1 w1) =
        new_segment-IsTracked (count_id w) (keepers (λ p. 0) rest w) (keepers (λ p. 0) rest1 w)
          (λ p. omega arith) (λ p. omega arith) v in
      let h = make_threads-Tracked n w1 rest1 v1 in
      let r = make_threads n w1 in
      (
        IsTracked-own (keepers (λ p. live p r.0) rest1 r.1) _ (λ p. omega arith) h.0,
        λ q. omega (arith, h.1 q, visible-new_segment q (count_id w)),
        (refl, h.2),
        omega (arith, h.3),
      )

  module _ (should_freeze : List (StoredDoc D) → Bool) where
    add_to-Tracked :
        (idx : ℕ) (d : D) (ts : List RtIndexThread) (w : World D) (rest : ℕ → ℕ)
        → idx < length ts
        → AllOpen ts
        → Tracked w (keepers (λ p. live p ts) rest w)
        → (r : List RtIndexThread × World D) × (add_to should_freeze idx d ts w ≡ some r)
          × AllOpen r.0
          × (length r.0 ≡ length ts)
          × Tracked r.1 (keepers (λ p. live p r.0) rest r.1)
          × ((q : D → Bool) → shown q r.1 ≡ shown q w + (if q d then 1 else 0))
    unfolding add_to live
    add_to-Tracked idx d [] w rest inside opens v = absurd (omega arith)
    add_to-Tracked zero d (t ∷ ts) w rest inside opens v =
        let rest' : ℕ → ℕ = λ p. live p ts + rest p in
        let (r, e, a) =
          add_document-IsAdded should_freeze d t w rest' opens.0
            (IsTracked-own _ (keepers (λ p. writes p t) rest' w) (λ p. omega arith) v) in
        (
          (r.0 ∷ ts, r.1),
          rw e refl,
          (a.still_open, opens.1),
          refl,
          IsTracked-own (keepers (λ p. writes p r.0) rest' r.1) _ (λ p. omega arith) a.tracked,
          a.one_more,
        )
    add_to-Tracked (suc idx) d (t ∷ ts) w rest inside opens v =
        let rest' : ℕ → ℕ = λ p. writes p t + rest p in
        let (r, e, os, len, tr, one) =
          add_to-Tracked idx d ts w rest' (omega (arith, inside)) opens.1
            (IsTracked-own _ (keepers (λ p. live p ts) rest' w) (λ p. omega arith) v) in
        (
          (t ∷ r.0, r.1),
          rw e refl,
          (opens.0, os),
          omega (arith, len),
          IsTracked-own (keepers (λ p. live p r.0) rest' r.1) _ (λ p. omega arith) tr,
          one,
        )

  -- What holds between the calls while the manager runs.
  pub record IsRunning (m : RealtimeIndexManager D) : Type 0 where
    pub tracked :
        Tracked m.world (keepers (λ p. live p m.rt_threads) (λ p. held p m.in_flight) m.world)
    pub opens : AllOpen m.rt_threads
    pub some_thread : 0 < length m.rt_threads
    pub is_started : m.started ≡ true
    pub not_stopped : m.stopped ≡ false

  work_step-IsRunning :
      (x : Work) (m : RealtimeIndexManager D) → IsRunning m → IsRunning (work_step x m)
  work_step-IsRunning x m v =
      let h = work_step-IsWorked (λ p. live p m.rt_threads) x m v.tracked in
      record {
        tracked = IsTracked-own _ _ (λ p. omega (arith, ap (live p) h.same_threads)) h.tracked;
        opens = subst AllOpen (sym h.same_threads) v.opens;
        some_thread = omega (arith, v.some_thread, ap length h.same_threads);
        is_started = h.same_started ∙ v.is_started;
        not_stopped = h.same_stopped ∙ v.not_stopped;
      }

  module _ (should_freeze : List (StoredDoc D) → Bool) where
    -- A running manager takes each document, and it is accounted for from then on.
    pub add_document-IsRunning :
        (d : D) (m : RealtimeIndexManager D)
        → IsRunning m
        → (m' : RealtimeIndexManager D) × (add_document should_freeze d m ≡ some m')
          × IsRunning m'
          × ((q : D → Bool) → accounted q m' ≡ accounted q m + (if q d then 1 else 0))
    unfolding add_document
    add_document-IsRunning d m v =
        let idx = m.round_robin % length m.rt_threads in
        let (r, e, os, len, tr, one) =
          add_to-Tracked should_freeze idx d m.rt_threads m.world (λ p. held p m.in_flight)
            (grind (arith, v.some_thread)) v.opens v.tracked in
        (
          record m { rt_threads = r.0; world = r.1; round_robin = (m.round_robin + 1) % u64 },
          rw (v.is_started, v.not_stopped, e) refl,
          record {
            tracked = tr;
            opens = os;
            some_thread = omega (arith, len, v.some_thread);
            is_started = v.is_started;
            not_stopped = v.not_stopped;
          },
          one,
        )

    pub run-IsRunning :
        (es : List (Event D)) (m : RealtimeIndexManager D)
        → IsRunning m
        → IsRunning (run should_freeze es m)
          × ((q : D → Bool)
              → accounted q (run should_freeze es m) ≡ accounted q m + count q (added es))
    unfolding run step count added
    run-IsRunning [] m v = (v, λ q. omega arith)
    run-IsRunning (add d ∷ es) m v =
        let (m', e, v', one) = add_document-IsRunning d m v in
        let (now, all) = run-IsRunning es m' v' in
        let stepped : step should_freeze (add d) m ≡ m' = rw e refl in
        subst
          (λ (k : RealtimeIndexManager D).
            IsRunning (run should_freeze es k)
            × ((q : D → Bool)
                → accounted q (run should_freeze es k)
                  ≡ accounted q m + count q (added (add d ∷ es))))
          (sym stepped) (now, λ q. omega (arith, all q, one q))
    run-IsRunning (work x ∷ es) m v =
        let (now, all) = run-IsRunning es (work_step x m) (work_step-IsRunning x m v) in
        let h = work_step-IsWorked (λ p. live p m.rt_threads) x m v.tracked in
        (now, λ q. omega (arith, all q, h.same_accounted q))
