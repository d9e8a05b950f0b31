-- ===== src/Store/PostingIterator/Blocks.antt =====
-- `loadNextBlock` at a block.
use piggy_engine.Prelude.{
  ℕ, ◌+◌, ◌-◌, ◌≤◌, ◌<◌, List, [], ◌++◌, true, false, ◌≡◌, refl, arith, ap, ap₂, sym, ◌∙◌, min,
  append-nil,
}
use piggy_engine.Prelude.{
  length, get_or, take, drop, ◌==◌, take_add, drop-drop, get_or-take, length-append,
  take-append_length, length-drop,
}
use piggy_engine.Codec.PForDelta.Block.{header_size, block_byte_size, decompress_block}
use piggy_engine.Codec.PForDelta.Stream.Blocks.{IsBlock}
use piggy_engine.Query.Docs.{is_nonempty}
use piggy_engine.Store.InputFile.{InputFile, read, read_full}
use piggy_engine.Store.PostingIterator.{
  DiskPostingIterator, tf_block, block_score, load_block, body_size, load_next_block,
}

-- The state once the block `block` of `size` bytes is loaded.
abbrev pub loaded : List ℕ → ℕ → DiskPostingIterator → DiskPostingIterator
loaded block size s = record s {
  file = record { bytes = s.file.bytes; pos = s.file.pos + size; good = true };
  cur_block = block;
  remaining = s.remaining - min s.remaining (length block);
  block_max_score = block_score s.skip_list.level0 s.cur_block_idx;
  cur_tf_block = tf_block s.all_tfs s.cur_block_idx (length block);
  cur_block_idx = s.cur_block_idx + 1;
  cur_pos = 0;
}

body_size-take :
    (bytes : List ℕ) → header_size + body_size (take header_size bytes) ≡ block_byte_size bytes
unfolding block_byte_size
body_size-take bytes =
    rw
      (
        get_or-take header_size 0 bytes 0 (omega arith),
        get_or-take header_size 1 bytes 0 (omega arith),
        get_or-take header_size 2 bytes 0 (omega arith),
      )
      (omega arith)

-- Both reads of `loadNextBlock`, where the file has the bytes.
load_next_block-full :
    (s : DiskPostingIterator) (bytes : List ℕ)
    → s.file.good ≡ true
    → 0 < s.remaining
    → drop s.file.pos s.file.bytes ≡ bytes
    → block_byte_size bytes ≤ length bytes
    → load_next_block s
      ≡ load_block
          (take header_size bytes)
          (
            take (body_size (take header_size bytes)) (drop header_size bytes),
            record { bytes = s.file.bytes; pos = s.file.pos + block_byte_size bytes; good = true },
          )
          s
unfolding load_next_block
load_next_block-full s bytes ok going at fits =
    let header = take header_size bytes in
    let size = body_size-take bytes in
    let f1 : InputFile = record {
      bytes = s.file.bytes;
      pos = s.file.pos + header_size;
      good = true;
    } in
    let behind : drop f1.pos f1.bytes ≡ drop header_size bytes =
      sym (drop-drop s.file.pos header_size s.file.bytes) ∙ ap (drop header_size) at in
    let first : read header_size s.file ≡ (header, f1) =
      read_full header_size s.file ok (omega (arith, ap length at, size))
      ∙ ap (λ (t : List ℕ). (take header_size t, f1)) at in
    let second : read (body_size header) f1 ≡ (
      take (body_size header) (drop header_size bytes),
      record { bytes = s.file.bytes; pos = s.file.pos + block_byte_size bytes; good = true },
    ) =
      read_full (body_size header) f1 refl
        (omega (arith, ap length behind, length-drop header_size bytes, size))
      ∙ ap₂
          (λ (t : List ℕ) (k : ℕ).
            (take (body_size header) t, record { bytes = s.file.bytes; pos = k; good = true }))
          behind (omega (arith, size)) in
    let more : (s.remaining == 0) ≡ false = ground arith in rw (first, more, second) refl

-- The bytes of both reads are the block.
block_bytes-take :
    (here tail : List ℕ) (size : ℕ)
    → header_size + size ≡ length here
    → take header_size (here ++ tail) ++ take size (drop header_size (here ++ tail)) ≡ here
block_bytes-take here tail size e =
    sym (take_add header_size size (here ++ tail))
    ∙ ap (λ (k : ℕ). take k (here ++ tail)) e
    ∙ take-append_length here tail

-- Where the next bytes of the file are a block, it is loaded.
pub load_next_block-IsBlock :
    (s : DiskPostingIterator) (block here tail : List ℕ)
    → s.file.good ≡ true
    → 0 < s.remaining
    → drop s.file.pos s.file.bytes ≡ here ++ tail
    → IsBlock block here
    → load_next_block s ≡ (is_nonempty block, loaded block (length here) s)
unfolding load_block
load_next_block-IsBlock s block here tail ok going at b =
    let bytes = here ++ tail in
    let size = b.whole tail in
    let body = body_size (take header_size bytes) in
    let all : take header_size bytes ++ take body (drop header_size bytes) ≡ here =
      block_bytes-take here tail body (body_size-take bytes ∙ size) in
    let docs : (decompress_block (take header_size bytes ++ take body (drop header_size bytes)) []
          0).1
        ≡ block =
      ap (λ (t : List ℕ). (decompress_block t [] 0).1) (all ∙ sym (append-nil here))
      ∙ b.decodes [] in
    let count : get_or (take header_size bytes) 1 0 ≡ length block =
      get_or-take header_size 1 bytes 0 (omega arith) ∙ b.sized tail in
    load_next_block-full s bytes ok going at (omega (arith, size, length-append here tail))
    ∙ rw (docs, count, size) refl
