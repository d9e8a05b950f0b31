-- ===== src/Common.antt =====
-- The module common: helpers without knowledge of the index.
pub mod BlockingQueue
