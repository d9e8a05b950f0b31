-- ===== src/Codec.antt =====
-- modules/codec: block compression of document ids, and the skip list over the blocks.
pub mod PForDelta
pub mod SkipList
