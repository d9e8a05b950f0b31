-- ===== src/Codec/PForDelta/Stream.antt =====
-- `compress` and `decompress`: a posting list as blocks of 128 documents.
pub mod Blocks
pub mod RoundTrip
use piggy_engine.Prelude.{ℕ, zero, suc, ◌+◌, List, [], ◌∷◌, ◌++◌, ◌&&◌}
use piggy_engine.Prelude.{length, get_or, take, drop, if◌then◌else◌, ltb}
use piggy_engine.Core.{SkipNode}
use piggy_engine.Codec.PForDelta.Block.{compress_block, decompress_block}

abbrev pub block_size : ℕ
block_size = 128

-- The loop over the blocks. The list is what `i` has not reached; it shrinks in each round, so as
-- many rounds as documents are enough.
unfoldable pub compress_loop : ℕ → List ℕ → List ℕ → List ℕ → List SkipNode → List ℕ × List SkipNode
compress_loop fuel [] norms output nodes = (output, nodes)
compress_loop zero (d ∷ ds) norms output nodes = (output, nodes)
compress_loop (suc fuel) (d ∷ ds) norms output nodes =
    let block = compress_block (take block_size (d ∷ ds)) (get_or norms (length nodes) 0) output in
    compress_loop fuel (drop block_size (d ∷ ds)) norms block.0 (nodes ++ block.1 ∷ [])

-- The bytes and `skip_nodes_out`; `norms` is `block_max_tf_norms`.
unfoldable pub compress : List ℕ → List ℕ → List ℕ × List SkipNode
compress doc_ids norms = compress_loop (length doc_ids) doc_ids norms [] []

-- `ptr` is `data + offset`. A round consumes a header at least, so `data_len` rounds are enough.
unfoldable pub decompress_loop : ℕ → List ℕ → ℕ → ℕ → ℕ → List ℕ → List ℕ
decompress_loop zero ptr data_len total_docs offset result = result
decompress_loop (suc fuel) ptr data_len total_docs offset result =
    let block = decompress_block ptr result 0 in
    let rest =
      decompress_loop fuel (drop block.0 ptr) data_len total_docs (offset + block.0) block.1 in
    if ltb offset data_len && ltb (length result) total_docs then rest else result

unfoldable pub decompress : List ℕ → ℕ → ℕ → List ℕ
decompress bytes data_len total_docs = decompress_loop data_len bytes data_len total_docs 0 []
