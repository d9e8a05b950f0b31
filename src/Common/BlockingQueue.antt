-- ===== src/Common/BlockingQueue.antt =====
-- modules/common/include/common/blocking_queue.h: a bounded queue between threads. A call holds the
-- mutex while it runs, so threads interleave as a sequence of whole calls; a call whose condition
-- variable has nothing to go on for is `blocked`, and is tried again later.
pub mod Fifo
use piggy_engine.Prelude.{ℕ, List, [], ◌∷◌, ◌++◌, Bool, true, false, not, ◌||◌, Option, none, some}
use piggy_engine.Prelude.{if◌then◌else◌, ltb, length}

pub record BlockingQueue (T : Type 0) : Type 0 where
  pub cap : ℕ
  pub buf : List T
  pub closed : Bool

pub data Outcome (T : Type 0) : Type 0 where
  blocked : Outcome T
  pushed : Bool → BlockingQueue T → Outcome T
  popped : Option T → BlockingQueue T → Outcome T

module _ {T : Type 0} where
  unfoldable pub new : ℕ → BlockingQueue T
  new capacity = record { cap = capacity; buf = []; closed = false }

  unfoldable pub push : T → BlockingQueue T → Outcome T
  push item q =
      if not (ltb (length q.buf) q.cap || q.closed)
      then blocked
      else if q.closed
      then pushed false q
      else pushed true (record q { buf = q.buf ++ item ∷ [] })

  -- `none` is the answer false: closed, and nothing left.
  unfoldable pub pop_from : BlockingQueue T → List T → Outcome T
  pop_from q [] = if q.closed then popped none q else blocked
  pop_from q (item ∷ items) = popped (some item) (record q { buf = items })

  unfoldable pub pop : BlockingQueue T → Outcome T
  unfolding pop_from
  pop q = pop_from q q.buf

  unfoldable pub close : BlockingQueue T → BlockingQueue T
  close q = record q { closed = true }

-- What the threads do, one call after the other, and what came of it.
pub data Call (T : Type 0) : Type 0 where
  push_call : T → Call T
  pop_call : Call T
  close_call : Call T

pub record History (T : Type 0) : Type 0 where
  pub queue : BlockingQueue T
  -- the items that a push took in, and those that a pop handed out
  pub taken_in : List T
  pub handed_out : List T

module _ {T : Type 0} where
  unfoldable pub after_push : T → History T → Outcome T → History T
  after_push item h blocked = h
  after_push item h (pushed true q) = record h { queue = q; taken_in = h.taken_in ++ item ∷ [] }
  after_push item h (pushed false q) = record h { queue = q }
  after_push item h (popped r q) = h

  unfoldable pub after_pop : History T → Outcome T → History T
  after_pop h blocked = h
  after_pop h (pushed r q) = h
  after_pop h (popped none q) = record h { queue = q }
  after_pop h (popped (some item) q) = record h {
    queue = q;
    handed_out = h.handed_out ++ item ∷ [];
  }

  unfoldable pub step : Call T → History T → History T
  unfolding after_push after_pop push pop close
  step (push_call item) h = after_push item h (push item h.queue)
  step pop_call h = after_pop h (pop h.queue)
  step close_call h = record h { queue = close h.queue }

  unfoldable pub run : List (Call T) → History T → History T
  unfolding step
  run [] h = h
  run (c ∷ cs) h = run cs (step c h)

  unfoldable pub start : ℕ → History T
  unfolding new
  start capacity = record { queue = new capacity; taken_in = []; handed_out = [] }
