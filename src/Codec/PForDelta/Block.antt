-- ===== src/Codec/PForDelta/Block.antt =====
-- One block of at most 128 documents: the body of the loop of `compress`, `decompressBlock` and
-- `blockByteSize`.
pub mod Laws
pub mod RoundTrip
use piggy_engine.Prelude.{ℕ, zero, suc, ◌+◌, ◌*◌, ◌%◌, List, [], ◌∷◌, ◌++◌}
use piggy_engine.Prelude.{length, get_or, set, drop, if◌then◌else◌, leb, ◌==◌}
use piggy_engine.Prelude.Words.{u16, add32, sub32, u16_bytes, u32_bytes, read_u16, read_u32}
use piggy_engine.Core.{SkipNode}
use piggy_engine.Codec.PForDelta.Pack.{bytes_for, pack_bits, unpack_bits}
use piggy_engine.Codec.PForDelta.Width.{max_value, choose_bit_width}

-- The fields keep the order that they have in the file.
pub record BlockHeader : Type 0 where
  pub b : ℕ
  pub size : ℕ
  pub exc_count : ℕ
  pub reserved : ℕ
  pub max_doc_id : ℕ
  pub max_score : ℕ
  pub first_doc_id : ℕ

pub record PatchEntry : Type 0 where
  pub position : ℕ
  pub value : ℕ

-- the packed structs, as `memcpy` writes them
abbrev pub header_bytes : BlockHeader → List ℕ
header_bytes h =
    h.b
    ∷ h.size
    ∷ h.exc_count
    ∷ h.reserved
    ∷ (u32_bytes h.max_doc_id ++ (u32_bytes h.max_score ++ u32_bytes h.first_doc_id))

abbrev pub patch_bytes : PatchEntry → List ℕ
patch_bytes p = u16_bytes p.position ++ u32_bytes p.value

abbrev pub header_size : ℕ
header_size = 16

abbrev pub patch_size : ℕ
patch_size = 6

unfoldable pub diffs : ℕ → List ℕ → List ℕ
diffs prev [] = []
diffs prev (d ∷ ds) = sub32 d prev ∷ diffs d ds

-- Step 1. `deltas[0]` is the first document itself.
unfoldable pub delta_encode : List ℕ → List ℕ
unfolding diffs
delta_encode [] = []
delta_encode (d ∷ ds) = d ∷ diffs d ds

-- Step 3: the values that stay and the patches, from index `k` on.
unfoldable pub truncate : ℕ → List ℕ → List ℕ
truncate max_val [] = []
truncate max_val (d ∷ ds) = (if leb d max_val then d else 0) ∷ truncate max_val ds

unfoldable pub patches_from : ℕ → ℕ → List ℕ → List PatchEntry
patches_from max_val k [] = []
patches_from max_val k (d ∷ ds) =
    let rest = patches_from max_val (k + 1) ds in
    if leb d max_val then rest else record { position = k % u16; value = d } ∷ rest

-- Step 7.
unfoldable pub write_patches : List PatchEntry → List ℕ → List ℕ
write_patches [] out = out
write_patches (p ∷ ps) out = write_patches ps (out ++ patch_bytes p)

unfoldable pub last_or : List ℕ → ℕ → ℕ
last_or [] d = d
last_or (x ∷ xs) d = last_or xs x

-- Steps 1 to 4.
unfoldable pub block_header : List ℕ → ℕ → BlockHeader
unfolding last_or
block_header docs max_score =
    let deltas = delta_encode docs in
    let width = choose_bit_width deltas in
    record {
      b = width % 256;
      size = length docs % 256;
      exc_count = length (patches_from (max_value width) 0 deltas) % 256;
      reserved = 0;
      max_doc_id = last_or docs 0;
      max_score = max_score;
      first_doc_id = get_or docs 0 0;
    }

-- Steps 1 to 8: the vector with the block behind it, and its skip node.
unfoldable pub compress_block : List ℕ → ℕ → List ℕ → List ℕ × SkipNode
compress_block docs max_score output =
    let deltas = delta_encode docs in
    let width = choose_bit_width deltas in
    let max_val = max_value width in
    let hdr = block_header docs max_score in
    let with_header = output ++ header_bytes hdr in
    let with_main = pack_bits (truncate max_val deltas) width with_header in
    let with_patches = write_patches (patches_from max_val 0 deltas) with_main in
    (
      with_patches,
      record {
        max_doc_id = hdr.max_doc_id;
        byte_offset = length output;
        max_score = hdr.max_score;
        doc_count = hdr.size;
      },
    )

unfoldable pub block_byte_size : List ℕ → ℕ
block_byte_size ptr =
    header_size + bytes_for (get_or ptr 1 0) (get_or ptr 0 0) + get_or ptr 2 0 * patch_size

-- The loop over the patches: `deltas[pe.position] = pe.value`.
unfoldable pub patch_loop : ℕ → List ℕ → List ℕ → List ℕ
patch_loop zero patch_data deltas = deltas
patch_loop (suc n) patch_data deltas =
    patch_loop n (drop patch_size patch_data)
      (set deltas (read_u16 patch_data) (read_u32 (drop 2 patch_data)))

-- The loop that adds the deltas up, at index `k`.
unfoldable pub restore_loop : ℕ → ℕ → List ℕ → List ℕ → List ℕ
restore_loop k prev [] out = out
restore_loop k prev (d ∷ ds) out =
    let next = if k == 0 then d else add32 prev d in restore_loop (k + 1) next ds (out ++ next ∷ [])

-- The bytes consumed, and `out` with the block's documents behind it.
unfoldable pub decompress_block : List ℕ → List ℕ → ℕ → ℕ × List ℕ
unfolding restore_loop
decompress_block ptr out base_doc_id =
    let b = get_or ptr 0 0 in
    let size = get_or ptr 1 0 in
    let exc_count = get_or ptr 2 0 in
    let main_data = drop header_size ptr in
    let main_bytes = bytes_for size b in
    let deltas = patch_loop exc_count (drop main_bytes main_data) (unpack_bits main_data b size) in
    (header_size + main_bytes + exc_count * patch_size, restore_loop 0 base_doc_id deltas out)
