-- ===== src/Memory/Realtime.antt =====
-- modules/memory/src/realtime_index_manager.cpp, rt_index_thread.cpp and flush_worker.cpp: documents
-- go from the threads' segments in memory through the flush queue to segments on disk, and are
-- searched all the way.
pub mod World
pub mod Thread
pub mod Worker
pub mod Manager
pub mod Visible
pub mod Tracked
pub mod Commit
pub mod Threads
pub mod Work
pub mod Laws
pub mod Shutdown
pub mod Disks
pub mod Stop
