-- ===== src/Store.antt =====
-- modules/store/src: the readers of a segment's files.
pub mod InputFile
pub mod PostingIterator
pub mod PostingList
pub mod PosIterator
