-- ===== src/Memory/Realtime/Manager.antt =====
-- modules/memory/src/realtime_index_manager.cpp. The worker's thread takes batches and commits them
-- between the calls; a batch that it has taken is `in_flight` until it is committed.
use piggy_engine.Prelude.{
  ℕ, zero, suc, ◌+◌, ◌%◌, List, [], ◌∷◌, Bool, true, false, not, ◌||◌, Option, none, some,
}
use piggy_engine.Prelude.{length, if◌then◌else◌}
use piggy_engine.Prelude.Words.{u64}
use piggy_engine.Memory.FlushQueue as FlushQueue
use piggy_engine.Memory.Realtime.World.{StoredDoc, FrozenEntry, World}
use piggy_engine.Memory.Realtime.Thread.{RtIndexThread}
use piggy_engine.Memory.Realtime.Thread as Thread
use piggy_engine.Memory.Realtime.Worker.{take_next, process_unless_empty, drain}

-- The steps of the worker's thread between the calls.
pub data Work : Type 0 where
  take : Work
  commit : Work

pub record RealtimeIndexManager (D : Type 0) : Type 0 where
  pub rt_threads : List RtIndexThread
  pub round_robin : ℕ
  pub started : Bool
  pub stopped : Bool
  pub in_flight : List FrozenEntry
  pub world : World D

module _ {D : Type 0} where
  abbrev pub put : RtIndexThread → List RtIndexThread × World D → List RtIndexThread × World D
  put t r = (t ∷ r.0, r.1)

  unfoldable pub make_threads : ℕ → World D → List RtIndexThread × World D
  unfolding Thread.new
  make_threads zero w = ([], w)
  make_threads (suc n) w = let r = Thread.new w in put r.0 (make_threads n r.1)

  -- The constructor, for at least one thread, and `start`.
  unfoldable pub start : ℕ → World D → RealtimeIndexManager D
  unfolding make_threads
  start n_rt_threads w =
      let r = make_threads n_rt_threads w in
      record {
        rt_threads = r.0;
        round_robin = 0;
        started = true;
        stopped = false;
        in_flight = [];
        world = r.1;
      }

  module _ (should_freeze : List (StoredDoc D) → Bool) where
    abbrev pub behind :
        RtIndexThread
        → Option (List RtIndexThread × World D)
        → Option (List RtIndexThread × World D)
    behind t none = none
    behind t (some r) = some (put t r)

    abbrev pub before :
        List RtIndexThread
        → Option (RtIndexThread × World D)
        → Option (List RtIndexThread × World D)
    before ts none = none
    before ts (some r) = some (r.0 ∷ ts, r.1)

    -- `rt_threads_[idx]->addDocument(doc)`; there is no thread past the end.
    unfoldable pub add_to :
        ℕ → D → List RtIndexThread → World D → Option (List RtIndexThread × World D)
    unfolding Thread.add_document
    add_to idx doc [] w = none
    add_to zero doc (t ∷ ts) w = before ts (Thread.add_document should_freeze doc t w)
    add_to (suc idx) doc (t ∷ ts) w = behind t (add_to idx doc ts w)

    abbrev pub with_threads :
        RealtimeIndexManager D
        → Option (List RtIndexThread × World D)
        → Option (RealtimeIndexManager D)
    with_threads m none = none
    with_threads m (some r) =
        some (record m { rt_threads = r.0; world = r.1; round_robin = (m.round_robin + 1) % u64 })

    -- `none` is the `logic_error`.
    unfoldable pub add_document : D → RealtimeIndexManager D → Option (RealtimeIndexManager D)
    unfolding add_to
    add_document doc m =
        let idx = m.round_robin % length m.rt_threads in
        if not m.started || m.stopped
        then none
        else with_threads m (add_to idx doc m.rt_threads m.world)

  -- Two steps of the worker: it takes a batch when it has none, and commits the one that it has.
  unfoldable pub take_if_idle : List FrozenEntry → RealtimeIndexManager D → RealtimeIndexManager D
  unfolding take_next
  take_if_idle [] m = let r = take_next m.world in record m { in_flight = r.0; world = r.1 }
  take_if_idle (e ∷ es) m = m

  unfoldable pub take_step : RealtimeIndexManager D → RealtimeIndexManager D
  unfolding take_if_idle
  take_step m = take_if_idle m.in_flight m

  unfoldable pub commit_step : RealtimeIndexManager D → RealtimeIndexManager D
  unfolding process_unless_empty
  commit_step m = record m { in_flight = []; world = process_unless_empty m.in_flight m.world }

  -- `FlushWorker::stop`: the batch at hand is committed, then the queue is drained.
  unfoldable pub stop_worker : World D → World D
  unfolding FlushQueue.shutdown drain
  stop_worker w =
      let q = FlushQueue.shutdown w.flush_queue in
      drain (length q.queue + 1) (record w { flush_queue = q })

  -- What the worker does next.
  unfoldable pub work_step : Work → RealtimeIndexManager D → RealtimeIndexManager D
  unfolding take_step commit_step
  work_step take m = take_step m
  work_step commit m = commit_step m

  unfoldable pub work_all : List Work → RealtimeIndexManager D → RealtimeIndexManager D
  unfolding work_step
  work_all [] m = m
  work_all (x ∷ xs) m = work_all xs (work_step x m)

  -- `between i` is what the worker does before the `i`-th thread is shut down, or behind the last.
  module _ (between : ℕ → List Work) where
    abbrev pub behind_shut :
        RtIndexThread
        → List RtIndexThread × RealtimeIndexManager D
        → List RtIndexThread × RealtimeIndexManager D
    behind_shut t r = (t ∷ r.0, r.1)

    unfoldable pub shutdown_all :
        List RtIndexThread
        → ℕ
        → RealtimeIndexManager D
        → List RtIndexThread × RealtimeIndexManager D
    unfolding Thread.shutdown work_all
    shutdown_all [] i m = ([], work_all (between i) m)
    shutdown_all (t ∷ ts) i m =
        let m1 = work_all (between i) m in
        let r = Thread.shutdown t m1.world in
        behind_shut r.0 (shutdown_all ts (i + 1) (record m1 { world = r.1 }))

    unfoldable pub stop : RealtimeIndexManager D → RealtimeIndexManager D
    unfolding shutdown_all stop_worker commit_step
    stop m =
        let r = shutdown_all m.rt_threads 0 (record m { stopped = true }) in
        let at_hand = commit_step (record r.1 { rt_threads = r.0 }) in
        if not m.started || m.stopped
        then m
        else record at_hand { world = stop_worker at_hand.world }

-- What happens before `stop`, in the order in which the threads do it.
pub data Event (D : Type 0) : Type 0 where
  add : D → Event D
  work : Work → Event D

module _ {D : Type 0} (should_freeze : List (StoredDoc D) → Bool) where
  abbrev pub or_same :
      RealtimeIndexManager D → Option (RealtimeIndexManager D) → RealtimeIndexManager D
  or_same m none = m
  or_same m (some m') = m'

  unfoldable pub step : Event D → RealtimeIndexManager D → RealtimeIndexManager D
  unfolding add_document work_step
  step (add doc) m = or_same m (add_document should_freeze doc m)
  step (work x) m = work_step x m

  unfoldable pub run : List (Event D) → RealtimeIndexManager D → RealtimeIndexManager D
  unfolding step
  run [] m = m
  run (e ∷ es) m = run es (step e m)
