-- ===== src/Codec/PForDelta/Stream/Blocks.antt =====
-- The bytes of a posting list as a chain of blocks, each with its skip node.
use piggy_engine.Prelude.{
  ℕ, ◌+◌, ◌*◌, ◌≤◌, ◌<◌, List, [], ◌∷◌, ◌++◌, ◌≡◌, arith, ap, sym, ◌∙◌, subst,
}
use piggy_engine.Prelude.{
  length, get_or, take, drop, append_assoc, length-append, length-drop, drop-drop,
  drop-append_length,
}
use piggy_engine.Core.{SkipNode}
use piggy_engine.Codec.PForDelta.Block.{block_byte_size, decompress_block, last_or}
use piggy_engine.Codec.PForDelta.Stream.{block_size}

-- `bytes` is the block of the documents `block`, whatever stands behind it.
pub record IsBlock (block bytes : List ℕ) : Type 0 where
  pub decodes : (rest : List ℕ) → (decompress_block (bytes ++ rest) [] 0).1 ≡ block
  pub whole : (rest : List ℕ) → block_byte_size (bytes ++ rest) ≡ length bytes
  pub sized : (rest : List ℕ) → get_or (bytes ++ rest) 1 0 ≡ length block
  pub long : 16 ≤ length bytes

-- `bytes` starts with the block `here` of the next documents, which `n` describes.
pub record IsHead (bytes : List ℕ) (off : ℕ) (n : SkipNode) (docs here tail : List ℕ) : Type 0 where
  pub split : bytes ≡ here ++ tail
  pub block : IsBlock (take block_size docs) here
  pub some_docs : 1 ≤ length docs
  pub at : n.byte_offset ≡ off
  pub last : n.max_doc_id ≡ last_or (take block_size docs) 0
  pub count : n.doc_count ≡ length (take block_size docs)

-- The blocks of `docs`, from the offset `off` on, with their nodes.
abbrev pub Chain : List ℕ → ℕ → List SkipNode → List ℕ → Type 0
Chain bytes off [] docs = docs ≡ []
Chain bytes off (n ∷ ns) docs =
    (here : List ℕ) × (tail : List ℕ) × IsHead bytes off n docs here tail
    × Chain tail (off + length here) ns (drop block_size docs)

pub Chain-append :
    (nodes : List SkipNode) (bytes after docs : List ℕ) (off : ℕ)
    → Chain bytes off nodes docs
    → Chain (bytes ++ after) off nodes docs
Chain-append [] bytes after docs off c = c
Chain-append (n ∷ ns) bytes after docs off (here, tail, h, c) = (
  here,
  tail ++ after,
  record {
    split = ap (λ (t : List ℕ). t ++ after) h.split ∙ append_assoc here tail after;
    block = h.block;
    some_docs = h.some_docs;
    at = h.at;
    last = h.last;
    count = h.count;
  },
  Chain-append ns tail after (drop block_size docs) (off + length here) c,
)

-- The node `n` behind the nodes `before` leads `gap` bytes ahead, to the rest of the chain.
pub record IsJump (bytes : List ℕ) (off : ℕ) (before : List SkipNode) (n : SkipNode)
    (after : List SkipNode) (docs : List ℕ) (gap : ℕ) : Type 0 where
  pub at : n.byte_offset ≡ off + gap
  pub fits : gap + 16 ≤ length bytes
  pub chain :
      Chain (drop gap bytes) (off + gap) (n ∷ after) (drop (block_size * length before) docs)
  pub more : block_size * length before < length docs

pub Chain-IsJump :
    (before : List SkipNode) (n : SkipNode) (after : List SkipNode) (bytes docs : List ℕ) (off : ℕ)
    → Chain bytes off (before ++ n ∷ after) docs
    → (gap : ℕ) × IsJump bytes off before n after docs gap
Chain-IsJump [] n after bytes docs off (here, tail, h, c) = (
  0,
  record {
    at = h.at ∙ omega arith;
    fits = omega (arith, ap length h.split, length-append here tail, h.block.long);
    chain = subst (λ (k : ℕ). Chain bytes k (n ∷ after) docs) (omega arith) (here, tail, h, c);
    more = omega (arith, h.some_docs);
  },
)
Chain-IsJump (m ∷ ms) n after bytes docs off (here, tail, h, c) =
    let (gap, j) = Chain-IsJump ms n after tail (drop block_size docs) (off + length here) c in
    let long = length-append here tail in
    let size = ap length h.split in
    let left = length-drop block_size docs in
    let place : (off + length here) + gap ≡ off + (length here + gap) = omega arith in
    let blocks : block_size + block_size * length ms ≡ block_size * length (m ∷ ms) = omega arith in
    let behind : drop gap tail ≡ drop (length here + gap) bytes =
      ap (drop gap) (sym (drop-append_length here tail))
      ∙ drop-drop (length here) gap (here ++ tail)
      ∙ ap (drop (length here + gap)) (sym h.split) in
    let docs_there : drop (block_size * length ms) (drop block_size docs)
        ≡ drop (block_size * length (m ∷ ms)) docs =
      drop-drop block_size (block_size * length ms) docs ∙ ap (λ (k : ℕ). drop k docs) blocks in
    (
      length here + gap,
      record {
        at = j.at ∙ place;
        fits = omega (arith, j.fits, size, long);
        chain = rw (← place, ← behind, ← docs_there) j.chain;
        more = omega (arith, j.more, left);
      },
    )
