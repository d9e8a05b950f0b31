-- ===== src/Memory/FlushQueue.antt =====
-- modules/memory/src/flush_queue.cpp: the queue of frozen segments. `takeBatch` waits for a full batch,
-- for the timeout or for `shutdown` and then takes what there is, so each call comes to an end; the
-- queue holds fewer than 2 ^ 31 entries, which `int` holds.
pub mod Drain
use piggy_engine.Prelude.{ℕ, List, [], ◌∷◌, ◌++◌, Bool, true, false, min}
use piggy_engine.Prelude.{length, take, drop}

pub record FlushQueue (T : Type 0) : Type 0 where
  pub queue : List T
  pub is_shut_down : Bool

module _ {T : Type 0} where
  abbrev pub new : FlushQueue T
  new = record { queue = []; is_shut_down = false }

  unfoldable pub push : T → FlushQueue T → FlushQueue T
  push entry q = record q { queue = q.queue ++ entry ∷ [] }

  -- The loop over `take` entries from the front.
  unfoldable pub take_batch : ℕ → FlushQueue T → List T × FlushQueue T
  take_batch max_batch q =
      let count = min (length q.queue) max_batch in
      (take count q.queue, record q { queue = drop count q.queue })

  unfoldable pub shutdown : FlushQueue T → FlushQueue T
  shutdown q = record q { is_shut_down = true }

  unfoldable pub size : FlushQueue T → ℕ
  size q = length q.queue

pub data Call (T : Type 0) : Type 0 where
  push_call : T → Call T
  take_call : ℕ → Call T
  shutdown_call : Call T

-- The queue, with the entries that were pushed and those that batches took, in order.
pub record History (T : Type 0) : Type 0 where
  pub now : FlushQueue T
  pub pushed : List T
  pub flushed : List T

module _ {T : Type 0} where
  unfoldable pub step : Call T → History T → History T
  unfolding push take_batch shutdown
  step (push_call entry) h = record h { now = push entry h.now; pushed = h.pushed ++ entry ∷ [] }
  step (take_call max_batch) h =
      let r = take_batch max_batch h.now in record h { now = r.1; flushed = h.flushed ++ r.0 }
  step shutdown_call h = record h { now = shutdown h.now }

  unfoldable pub run : List (Call T) → History T → History T
  unfolding step
  run [] h = h
  run (c ∷ cs) h = run cs (step c h)

  abbrev pub start : History T
  start = record { now = new; pushed = []; flushed = [] }
