-- ===== src/Codec/PForDelta.antt =====
-- modules/codec/src/pfor_delta.cpp: delta encoding in blocks of 128, `b` bits per delta, and
-- patches for the deltas that do not fit. A byte vector is a list of numbers, a pointer into it a
-- suffix of the list; a read past the end gives 0 and a write there changes nothing.
pub mod Pack
pub mod Width
pub mod Block
pub mod Stream
