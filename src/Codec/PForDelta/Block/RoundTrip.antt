-- ===== src/Codec/PForDelta/Block/RoundTrip.antt =====
-- `decompressBlock` after one round of the loop of `compress`.
use piggy_engine.Prelude.{
  ℕ, ◌+◌, ◌*◌, ◌%◌, ◌^◌, ◌≤◌, List, [], ◌++◌, ◌≡◌, refl, arith, ap, ap₂, sym, ◌∙◌,
}
use piggy_engine.Prelude.{
  length, drop, get_or, All, append_assoc, length-append, length-drop, take-append-drop,
  drop-append_length,
}
use piggy_engine.Prelude.Words.{IsU32}
use piggy_engine.Codec.PForDelta.Pack.{bytes_for, pack_bits, unpack_bits}
use piggy_engine.Codec.PForDelta.Pack.RoundTrip.{
  length-pack_bits, take-pack_bits, unpack_bits-pack_bits,
}
use piggy_engine.Codec.PForDelta.Width.{max_value, choose_bit_width}
use piggy_engine.Codec.PForDelta.Width.Laws.{choose_bit_width-IsLeastWidth, max_value-lt}
use piggy_engine.Codec.PForDelta.Block.{
  BlockHeader, PatchEntry, header_bytes, header_size, patch_size, delta_encode, truncate,
  patches_from, block_header, block_byte_size, compress_block, decompress_block, patch_loop,
  restore_loop,
}
use piggy_engine.Codec.PForDelta.Block.Laws.{
  restore_loop-delta_encode, delta_encode-IsU32, length-delta_encode, length-truncate, truncate-mod,
  length-patches_from, all_patch_bytes, write_patches-append, length-all_patch_bytes,
  patch_loop-truncate,
}

decompress_block-parts :
    (hdr : BlockHeader) (main out : List ℕ) (base : ℕ) {b size exc_count : ℕ}
    → hdr.b ≡ b
    → hdr.size ≡ size
    → hdr.exc_count ≡ exc_count
    → decompress_block (header_bytes hdr ++ main) out base ≡ (
      header_size + bytes_for size b + exc_count * patch_size,
      restore_loop 0 base
          (patch_loop exc_count (drop (bytes_for size b) main) (unpack_bits main b size))
          out,
    )
unfolding decompress_block
decompress_block-parts hdr main out base width size exc = rw (← width, ← size, ← exc)

block_byte_size-parts :
    (hdr : BlockHeader) (main : List ℕ) {b size exc_count : ℕ}
    → hdr.b ≡ b
    → hdr.size ≡ size
    → hdr.exc_count ≡ exc_count
    → block_byte_size (header_bytes hdr ++ main)
      ≡ header_size + bytes_for size b + exc_count * patch_size
unfolding block_byte_size
block_byte_size-parts hdr main width size exc = rw (← width, ← size, ← exc) refl

module _ (docs : List ℕ) (max_score : ℕ) (output : List ℕ) where
  abbrev deltas : List ℕ
  deltas = delta_encode docs

  abbrev width : ℕ
  width = choose_bit_width deltas

  abbrev kept : List ℕ
  kept = truncate (max_value width) deltas

  abbrev patches : List PatchEntry
  patches = patches_from (max_value width) 0 deltas

  abbrev header : List ℕ
  header = header_bytes (block_header docs max_score)

  abbrev main : List ℕ
  main = drop (length (output ++ header)) (pack_bits kept width (output ++ header))

  -- the bytes that the block adds to the vector
  pub block_bytes : List ℕ
  block_bytes = header ++ (main ++ all_patch_bytes patches)

  length-main : length main ≡ bytes_for (length docs) width
  length-main = omega (
    arith,
    length-drop (length (output ++ header)) (pack_bits kept width (output ++ header)),
    length-pack_bits kept width (output ++ header),
    ap (λ (t : ℕ). bytes_for t width)
        (length-truncate (max_value width) deltas ∙ length-delta_encode docs),
  )

  -- The vector is only appended to.
  pub compress_block-append : (compress_block docs max_score output).0 ≡ output ++ block_bytes
  unfolding compress_block block_bytes
  compress_block-append =
      let packed = pack_bits kept width (output ++ header) in
      let split : packed ≡ (output ++ header) ++ main =
        sym (take-append-drop (length (output ++ header)) packed)
        ∙ ap (λ (t : List ℕ). t ++ main) (take-pack_bits kept width (output ++ header)) in
      write_patches-append patches packed
      ∙ ap (λ (t : List ℕ). t ++ all_patch_bytes patches) (split ∙ append_assoc output header main)
      ∙ append_assoc output (header ++ main) (all_patch_bytes patches)
      ∙ ap (λ (t : List ℕ). output ++ t) (append_assoc header main (all_patch_bytes patches))

  module _ (some_docs : 1 ≤ length docs) (few : length docs ≤ 128) (small : All IsU32 docs) where
    width_byte : width % 256 ≡ width
    width_byte =
        let chosen = choose_bit_width-IsLeastWidth deltas (delta_encode-IsU32 docs small) in
        omega (arith, chosen.le)

    size_byte : length docs % 256 ≡ length docs
    size_byte = omega arith

    exc_byte : length patches % 256 ≡ length patches
    exc_byte =
        omega (arith, length-patches_from (max_value width) 0 deltas, length-delta_encode docs)

    pub length-block_bytes :
        length block_bytes
        ≡ header_size + bytes_for (length docs) width + length patches * patch_size
    unfolding block_bytes
    length-block_bytes = omega (
      arith,
      length-main,
      length-append main (all_patch_bytes patches),
      length-all_patch_bytes patches,
    )

    deltas_back :
        (rest : List ℕ)
        → patch_loop
            (length patches)
            (all_patch_bytes patches ++ rest)
            (unpack_bits (main ++ (all_patch_bytes patches ++ rest)) width (length docs))
          ≡ deltas
    deltas_back rest =
        let behind = all_patch_bytes patches ++ rest in
        let count : length docs ≡ length kept =
          sym (length-truncate (max_value width) deltas ∙ length-delta_encode docs) in
        let unpacked : unpack_bits (main ++ behind) width (length docs) ≡ kept =
          ap (unpack_bits (main ++ behind) width) count
          ∙ unpack_bits-pack_bits kept width (output ++ header) behind
          ∙ truncate-mod (max_value width) (2 ^ width) deltas (max_value-lt width) in
        ap (patch_loop (length patches) behind) unpacked
        ∙ patch_loop-truncate (max_value width) 0 deltas [] rest (delta_encode-IsU32 docs small)
            refl (omega (arith, length-delta_encode docs))

    pub decompress_block-block_bytes :
        (rest out : List ℕ) (base : ℕ)
        → decompress_block (block_bytes ++ rest) out base ≡ (length block_bytes, out ++ docs)
    unfolding block_bytes block_header
    decompress_block-block_bytes rest out base =
        let behind = all_patch_bytes patches ++ rest in
        let past_main : drop (bytes_for (length docs) width) (main ++ behind) ≡ behind =
          rw (← length-main) (drop-append_length main behind) in
        ap (λ (t : List ℕ). decompress_block (header ++ t) out base)
          (append_assoc main (all_patch_bytes patches) rest)
        ∙ decompress_block-parts (block_header docs max_score) (main ++ behind) out base width_byte
            size_byte exc_byte
        ∙ ap₂ (λ (n : ℕ) (ds : List ℕ). let r : ℕ × List ℕ = (n, ds) in r) (sym length-block_bytes)
            (ap (λ (t : List ℕ). restore_loop 0 base t out)
                (ap
                    (λ (t : List ℕ).
                      patch_loop (length patches) t
                        (unpack_bits (main ++ behind) width (length docs)))
                    past_main
                  ∙ deltas_back rest)
              ∙ restore_loop-delta_encode base docs out small)

    -- The header says how long the block is and how many documents it has.
    pub block_byte_size-block_bytes :
        (rest : List ℕ) → block_byte_size (block_bytes ++ rest) ≡ length block_bytes
    unfolding block_bytes block_header
    block_byte_size-block_bytes rest =
        block_byte_size-parts (block_header docs max_score)
          ((main ++ all_patch_bytes patches) ++ rest) width_byte size_byte exc_byte
        ∙ sym length-block_bytes

    pub size-block_bytes : (rest : List ℕ) → get_or (block_bytes ++ rest) 1 0 ≡ length docs
    unfolding block_bytes block_header
    size-block_bytes rest = size_byte

    -- `decompressBlock` at what one round of `compress` appends to `output` for 1 to 128 document
    -- ids of 32 bits adds these ids to `out`, whatever stands behind the block and whatever `base`
    -- is, and returns the number of bytes that were appended.
    pub decompress_block-compress_block :
        (rest out : List ℕ) (base : ℕ)
        → let bytes = drop (length output) (compress_block docs max_score output).0 in
          decompress_block (bytes ++ rest) out base ≡ (length bytes, out ++ docs)
    decompress_block-compress_block rest out base =
        let added : drop (length output) (compress_block docs max_score output).0 ≡ block_bytes =
          ap (drop (length output)) compress_block-append ∙ drop-append_length output block_bytes in
        ap (λ (t : List ℕ). decompress_block (t ++ rest) out base) added
        ∙ decompress_block-block_bytes rest out base
        ∙ ap (λ (t : List ℕ). (length t, out ++ docs)) (sym added)
