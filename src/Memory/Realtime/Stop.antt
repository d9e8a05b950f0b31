-- ===== src/Memory/Realtime/Stop.antt =====
-- After `stop` no document is in memory.
use piggy_engine.Prelude.{ℕ, ◌+◌, ◌<◌, List, [], map, Bool, ◌≡◌}
use piggy_engine.Prelude.{◌==◌}
use piggy_engine.Prelude.Counts.{count}
use piggy_engine.Memory.FlushQueue.{FlushQueue, take_batch}
use piggy_engine.Memory.FlushQueue as FlushQueue
use piggy_engine.Memory.Realtime.World.{StoredDoc, disk, World}
use piggy_engine.Memory.Realtime.Manager.{Work, RealtimeIndexManager, start, Event, run}
use piggy_engine.Memory.Realtime.Threads.{Tracked}
use piggy_engine.Memory.Realtime.Disks.{opens, closes}
use piggy_engine.Memory.Realtime.Work.{accounted}

module _ {D : Type 0} where
  -- What `stop` leaves.
  record IsStopped (m m' : RealtimeIndexManager D) : Type 0 where
    tracked : Tracked m'.world (λ p. 0)
    same_accounted : (q : D → Bool) → accounted q m' ≡ accounted q m
    no_batch : m'.in_flight ≡ []
    no_entry : m'.world.flush_queue.queue ≡ []

  -- The searcher has these segments on disk when the manager is made.
  abbrev pub with_disks : ℕ → List ℕ → World D
  with_disks id old = record {
    global_seg_id = id;
    segments = [];
    all_readers = map disk old;
    flush_queue = FlushQueue.new;
    commits = [];
  }

  module _ (should_freeze : List (StoredDoc D) → Bool) (n id : ℕ) (old : List ℕ)
      (some_thread : 0 < n) (events : List (Event D)) where
    abbrev pub after : RealtimeIndexManager D
    after = run should_freeze events (start n (with_disks id old))

    -- The searcher reads the segments on disk that it had and one for each commit.
    abbrev pub ReadsCommits : World D → Type 0
    ReadsCommits w = (p : ℕ) → opens p w.all_readers ≡ count (λ i. i == p) old + closes p w.commits
