-- ===== src/Memory.antt =====
-- modules/memory: the in-memory segment and its flush to disk.
pub mod PostingIterator
pub mod FlushQueue
pub mod SegmentArena
pub mod StringArena
pub mod TermHashTable
pub mod Realtime
