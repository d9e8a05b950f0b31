-- ===== src/Examples/Memory.antt =====
-- Queues, arenas and tables at concrete inputs.
use piggy_engine.Prelude.{ℕ, List, [], ◌∷◌, some, ◌≡◌, refl, arith, false}
use piggy_engine.Common.BlockingQueue.{
  BlockingQueue, Call, push_call, pop_call, close_call, run, start, push, pushed, close,
}
use piggy_engine.Common.BlockingQueue as BlockingQueue
use piggy_engine.Common.BlockingQueue.Fifo.{IsFifo, run-IsFifo}
use piggy_engine.Memory.FlushQueue.{FlushQueue, take_batch, shutdown, size}
use piggy_engine.Memory.FlushQueue as FlushQueue
use piggy_engine.Memory.FlushQueue.Drain.{IsKept, run-IsKept}
use piggy_engine.Prelude.{◌^◌}
use piggy_engine.Memory.SegmentArena.{SegmentArena, alloc}
use piggy_engine.Memory.SegmentArena.Laws.{IsPiece, alloc-IsPiece}
use piggy_engine.Memory.StringArena.{StringArena, appended, store, get}
use piggy_engine.Memory.StringArena.Laws.{get-store, get-appended_earlier}
use piggy_engine.Memory.StringArena.Laws as Arena
use piggy_engine.Memory.TermHashTable.{
  empty_bucket, TermHashTable, hash_loop, compute_hash, start_slot, is_term, find_loop, find_slot,
  upsert,
}
use piggy_engine.Memory.TermHashTable.Table.{IsTable}
use piggy_engine.Memory.TermHashTable.Laws.{IsUpserted, lookup-upsert}

abbrev calls : List (Call ℕ)
calls =
    push_call 5 ∷ push_call 6 ∷ pop_call ∷ push_call 7 ∷ close_call ∷ push_call 8 ∷ pop_call ∷ []

run-IsFifo_example : IsFifo 2 (run calls (start 2))
run-IsFifo_example = run-IsFifo 2 calls

runs : Unit {0}
unfolding run start BlockingQueue.step BlockingQueue.new push BlockingQueue.pop
    BlockingQueue.pop_from close BlockingQueue.after_push BlockingQueue.after_pop
runs = tt

-- The second push finds the queue full, and is not taken in.
calls_hand_out : (run calls (start 1)).handed_out ≡ 5 ∷ 7 ∷ []
unfolding runs
calls_hand_out = refl

abbrev flush_calls : List (FlushQueue.Call ℕ)
flush_calls =
    FlushQueue.push_call 1
    ∷ FlushQueue.push_call 2
    ∷ FlushQueue.take_call 1
    ∷ FlushQueue.shutdown_call
    ∷ FlushQueue.take_call 4
    ∷ []

run-IsKept_example : IsKept (FlushQueue.run flush_calls FlushQueue.start)
run-IsKept_example = run-IsKept flush_calls

abbrev waiting : FlushQueue ℕ
waiting = record { queue = 1 ∷ 2 ∷ 3 ∷ []; is_shut_down = false }

-- An arena of six bytes with the string of the byte 65.
abbrev arena : StringArena
arena = record { base = 65 ∷ 0 ∷ 0 ∷ 0 ∷ 0 ∷ 0 ∷ []; capacity = 6; offset = 1 }

arena-IsValid : Arena.IsValid arena
arena-IsValid = record { whole = refl; inside = omega arith }

abbrev term : List ℕ
term = 97 ∷ 98 ∷ []

get-store_example :
    (store term arena ≡ some (1, appended term arena))
    × (get 1 2 (appended term arena) ≡ term)
    × Arena.IsValid (appended term arena)
get-store_example = get-store term arena arena-IsValid (omega arith) (omega arith)

abbrev table : TermHashTable
table = record {
  buckets = empty_bucket ∷ empty_bucket ∷ [];
  capacity = 2;
  size = 0;
  str_arena = record { base = 0 ∷ 0 ∷ 0 ∷ []; capacity = 3; offset = 0 };
}

table-IsTable : IsTable table
table-IsTable = record {
  pos = omega arith;
  whole = refl;
  arena = record { whole = refl; inside = omega arith };
  small = omega arith;
  stored = (omega arith, (omega arith, tt));
}

table_slot : find_slot term (compute_hash term) table ≡ some 0
unfolding find_slot compute_hash hash_loop start_slot find_loop is_term
table_slot = refl

lookup-upsert_example :
    (r : ℕ × TermHashTable) × (upsert term 9 1 table ≡ some r) × IsUpserted term 9 r
lookup-upsert_example = lookup-upsert term 9 1 0 table table-IsTable table_slot (omega arith)

abbrev half_used : SegmentArena
half_used = record { capacity = 100; offset = 49 }

alloc-IsPiece_example :
    (r : ℕ × SegmentArena) × (alloc 20 (2 ^ 3) half_used ≡ some r) × IsPiece 20 3 half_used r
alloc-IsPiece_example = alloc-IsPiece 20 3 61 half_used (omega arith) (omega arith) (omega arith)

get-appended_earlier_example : get 0 1 (appended term arena) ≡ get 0 1 arena
get-appended_earlier_example =
    get-appended_earlier term arena arena-IsValid (omega arith) 0 1 (omega arith)
