-- ===== src/Codec/PForDelta/Stream/RoundTrip.antt =====
-- `decompress` after `compress`, and what a skip node points at.
use piggy_engine.Prelude.{
  ℕ, zero, suc, ◌+◌, ◌≤◌, List, [], ◌∷◌, ◌++◌, ◌≡◌, refl, arith, ap, sym, ◌∙◌, ◌&&◌, true, false,
}
use piggy_engine.Prelude.{
  length, get_or, drop, take, All, All-take, All-drop, append_assoc, append-nil, ltb, length-append,
  length-drop, length-take, take-append-drop, drop-append_length, lt→ltb, subst,
}
use piggy_engine.Prelude.Words.{IsU32}
use piggy_engine.Core.{SkipNode}
use piggy_engine.Codec.PForDelta.Block.{compress_block, decompress_block, block_header, last_or}
use piggy_engine.Codec.PForDelta.Block.RoundTrip.{
  block_bytes, compress_block-append, length-block_bytes, decompress_block-block_bytes,
  block_byte_size-block_bytes, size-block_bytes,
}
use piggy_engine.Codec.PForDelta.Stream.Blocks.{IsBlock, Chain, Chain-append}
use piggy_engine.Codec.PForDelta.Stream.{
  block_size, compress_loop, compress, decompress_loop, decompress,
}

-- `bytes` is a stream that `decompress` reads as `docs`.
abbrev pub Decodes : List ℕ → List ℕ → Type 0
Decodes docs bytes =
    (fuel data_len total offset : ℕ) (result : List ℕ)
    → offset + length bytes ≡ data_len
    → length result + length docs ≡ total
    → length bytes ≤ fuel
    → decompress_loop fuel bytes data_len total offset result ≡ result ++ docs

-- Each node points at the block of the next 128 documents, and has its last document and its size.
abbrev pub Located : List ℕ → List SkipNode → List ℕ → Type 0
Located full [] docs = docs ≡ []
Located full (n ∷ ns) docs =
    ((decompress_block (drop n.byte_offset full) [] 0).1 ≡ take block_size docs)
    × (n.max_doc_id ≡ last_or (take block_size docs) 0)
    × (n.doc_count ≡ length (take block_size docs))
    × Located full ns (drop block_size docs)

record Encodes (docs output : List ℕ) (nodes : List SkipNode) (r : List ℕ × List SkipNode)
    : Type 0 where
  bytes : List ℕ
  new : List SkipNode
  stream : r.0 ≡ output ++ bytes
  skips : r.1 ≡ nodes ++ new
  decodes : Decodes docs bytes
  located : Located r.0 new docs
  chain : Chain bytes (length output) new docs

Decodes-nil : Decodes [] []
unfolding decompress_loop
Decodes-nil zero data_len total offset result e n h = sym (append-nil result)
Decodes-nil (suc fuel) data_len total offset result e n h =
    let done : (ltb offset data_len && ltb (length result) total) ≡ false = ground arith in
    rw done (sym (append-nil result))

module _ (block : List ℕ) (score : ℕ) (output : List ℕ) where
  module _ (some_docs : 1 ≤ length block) (few : length block ≤ 128) (small : All IsU32 block) where
    abbrev first : List ℕ
    first = block_bytes block score output

    block_bytes-IsBlock : IsBlock block first
    block_bytes-IsBlock = record {
      decodes = λ rest.
          ap (λ (t : ℕ × List ℕ). t.1)
            (decompress_block-block_bytes block score output some_docs few small rest [] 0);
      whole = block_byte_size-block_bytes block score output some_docs few small;
      sized = size-block_bytes block score output some_docs few small;
      long = omega (arith, length-block_bytes block score output some_docs few small);
    }

    Decodes-block :
        (more bytes : List ℕ) → Decodes more bytes → Decodes (block ++ more) (first ++ bytes)
    unfolding decompress_loop
    Decodes-block more bytes d zero data_len total offset result e n h = absurd (
        omega (
          arith,
          length-append first bytes,
          length-block_bytes block score output some_docs few small,
        ))
    Decodes-block more bytes d (suc fuel) data_len total offset result e n h =
        let size = length-block_bytes block score output some_docs few small in
        let whole = length-append first bytes in
        let docs = length-append block more in
        let going : (ltb offset data_len && ltb (length result) total) ≡ true = rw (
          lt→ltb offset data_len (omega (arith, size, whole, e)),
          lt→ltb (length result) total (omega (arith, docs, n)),
        ) in
        rw
          (
            going,
            decompress_block-block_bytes block score output some_docs few small bytes result 0,
            drop-append_length first bytes,
          )
          (d fuel data_len total (offset + length first) (result ++ block) (omega (arith, whole, e))
              (omega (arith, docs, n, length-append result block)) (omega (arith, size, whole, h))
            ∙ append_assoc result block more)

abbrev block_of : List ℕ → List ℕ
block_of docs = take block_size docs

abbrev more_of : List ℕ → List ℕ
more_of docs = drop block_size docs

module _ (norms : List ℕ) where
  -- One round of the loop, given what the later rounds do.
  Encodes-cons :
      (docs output : List ℕ) (nodes : List SkipNode) (r : List ℕ × List SkipNode)
      → 1 ≤ length docs
      → All IsU32 docs
      → let block = compress_block (block_of docs) (get_or norms (length nodes) 0) output in
        Encodes (more_of docs) block.0 (nodes ++ block.1 ∷ []) r → Encodes docs output nodes r
  unfolding compress_block block_header
  Encodes-cons docs output nodes r some_docs small later =
      let score = get_or norms (length nodes) 0 in
      let docs_here = block_of docs in
      let block = compress_block docs_here score output in
      let here = block_bytes docs_here score output in
      let there : 1 ≤ length docs_here = omega (arith, length-take block_size docs) in
      let few : length docs_here ≤ 128 = omega (arith, length-take block_size docs) in
      let small_here = All-take IsU32 block_size docs small in
      let full : r.0 ≡ output ++ (here ++ later.bytes) =
        later.stream
        ∙ ap (λ (t : List ℕ). t ++ later.bytes) (compress_block-append docs_here score output)
        ∙ append_assoc output here later.bytes in
      record {
        bytes = here ++ later.bytes;
        new = block.1 ∷ later.new;
        stream = full;
        skips = later.skips ∙ append_assoc nodes (block.1 ∷ []) later.new;
        decodes =
            subst (λ (t : List ℕ). Decodes t (here ++ later.bytes))
              (take-append-drop block_size docs)
              (Decodes-block docs_here score output there few small_here (more_of docs) later.bytes
                later.decodes);
        located = (
          rw (full, drop-append_length output (here ++ later.bytes))
              (ap (λ (t : ℕ × List ℕ). t.1)
                (decompress_block-block_bytes docs_here score output there few small_here
                  later.bytes [] 0)),
          refl,
          omega arith,
          later.located,
        );
        chain = (
          here,
          later.bytes,
          record {
            split = refl;
            block = block_bytes-IsBlock docs_here score output there few small_here;
            some_docs = some_docs;
            at = refl;
            last = refl;
            count = omega arith;
          },
          subst (λ (k : ℕ). Chain later.bytes k later.new (more_of docs))
              (ap length (compress_block-append docs_here score output) ∙ length-append output here)
              later.chain,
        );
      }

  compress_loop-Encodes :
      (fuel : ℕ) (docs output : List ℕ) (nodes : List SkipNode)
      → length docs ≤ fuel
      → All IsU32 docs
      → Encodes docs output nodes (compress_loop fuel docs norms output nodes)
  unfolding compress_loop
  compress_loop-Encodes fuel [] output nodes enough small = record {
    bytes = [];
    new = [];
    stream = sym (append-nil output);
    skips = sym (append-nil nodes);
    decodes = Decodes-nil;
    located = refl;
    chain = refl;
  }
  compress_loop-Encodes zero (d ∷ ds) output nodes enough small = absurd (omega arith)
  compress_loop-Encodes (suc fuel) (d ∷ ds) output nodes enough small =
      Encodes-cons (d ∷ ds) output nodes _ (omega arith) small (
        compress_loop-Encodes fuel (more_of (d ∷ ds)) _ _
          (omega (arith, length-drop block_size (d ∷ ds)))
          (All-drop IsU32 block_size (d ∷ ds) small))

compress-Encodes : (docs norms : List ℕ) → All IsU32 docs → Encodes docs [] [] (compress docs norms)
unfolding compress
compress-Encodes docs norms small =
    compress_loop-Encodes norms (length docs) docs [] [] (omega arith) small

-- What `compress` writes for any list of 32-bit document ids, sorted or not, `decompress` reads
-- back: the whole list, in order.
pub decompress-compress :
    (docs norms : List ℕ)
    → All IsU32 docs
    → let bytes = (compress docs norms).0 in decompress bytes (length bytes) (length docs) ≡ docs
unfolding decompress
decompress-compress docs norms small =
    let e = compress-Encodes docs norms small in
    rw e.stream (
      e.decodes (length e.bytes) (length e.bytes) (length docs) 0 [] (omega arith) (omega arith)
        (omega arith))

-- The skip nodes that `compress` puts out lead to the blocks: decompressing at the offset of the
-- k-th node gives the documents from 128 * k on, 128 of them or what is left, the last of which the
-- node names and whose number it has; and there is a node for each block.
pub compress-Located :
    (docs norms : List ℕ) → All IsU32 docs → let r = compress docs norms in Located r.0 r.1 docs
compress-Located docs norms small =
    let e = compress-Encodes docs norms small in
    subst (λ (t : List SkipNode). Located (compress docs norms).0 t docs) (sym e.skips) e.located

-- The bytes of `compress`, whatever stands behind them, are a chain of blocks with its skip nodes.
pub compress-Chain :
    (docs norms after : List ℕ)
    → All IsU32 docs
    → let r = compress docs norms in Chain (r.0 ++ after) 0 r.1 docs
compress-Chain docs norms after small =
    let e = compress-Encodes docs norms small in
    rw (e.stream, e.skips) (Chain-append e.new e.bytes after docs 0 e.chain)
