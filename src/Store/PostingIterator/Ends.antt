-- ===== src/Store/PostingIterator/Ends.antt =====
-- The loop `while (loadNextBlock())` ends on any file.
use native.Mathlib.Nat.{suc-add}
use piggy_engine.Prelude.{
  ℕ, zero, suc, ◌+◌, ◌-◌, ◌<◌, List, [], ◌++◌, Bool, true, false, ◌≡◌, ◌≢◌, refl, arith, ap, sym,
  ◌∙◌, inl, inr,
}
use piggy_engine.Prelude.{
  length, get_or, take, drop, replicate, ◌==◌, Bool-cases, length-append, length-replicate,
  length-take, get_or-append_left,
}
use piggy_engine.Codec.PForDelta.Pack.{bytes_for, unpack_bits, unpack_loop}
use piggy_engine.Codec.PForDelta.Block.{header_size, patch_loop, restore_loop, decompress_block}
use piggy_engine.Query.Docs.{is_nonempty}
use piggy_engine.Store.InputFile.{InputFile, read}
use piggy_engine.Store.PostingIterator.{
  DiskPostingIterator, take_current, scan_block, load_block, body_size, load_next_block,
  scan_blocks, scan_on,
}

patch_loop-nil : (count : ℕ) (patch_data : List ℕ) → patch_loop count patch_data [] ≡ []
unfolding patch_loop
patch_loop-nil zero patch_data = refl
patch_loop-nil (suc n) patch_data = patch_loop-nil n (drop 6 patch_data)

unpack_bits_none : (bytes : List ℕ) (b : ℕ) → unpack_bits bytes b 0 ≡ []
unfolding unpack_bits unpack_loop
unpack_bits_none bytes b = elim (Bool-cases (b == 0)) [ inl e ↦ rw e refl | inr e ↦ rw e refl ]

-- A header with no documents stands for an empty block.
decompress_block_none : (ptr : List ℕ) → get_or ptr 1 0 ≡ 0 → (decompress_block ptr [] 0).1 ≡ []
unfolding decompress_block restore_loop
decompress_block_none ptr e =
    let main = drop header_size ptr in
    let patch_data = drop (bytes_for (get_or ptr 1 0) (get_or ptr 0 0)) main in
    let values : unpack_bits main (get_or ptr 0 0) (get_or ptr 1 0) ≡ [] =
      ap (unpack_bits main (get_or ptr 0 0)) e ∙ unpack_bits_none main (get_or ptr 0 0) in
    ap (λ (l : List ℕ). restore_loop 0 0 l [])
      (ap (patch_loop (get_or ptr 2 0) patch_data) values
        ∙ patch_loop-nil (get_or ptr 2 0) patch_data)

length-read : (count : ℕ) (f : InputFile) → length (read count f).0 ≡ count
unfolding read
length-read count f =
    let got = take count (drop f.pos f.bytes) in
    elim (Bool-cases f.good) [
      | inl ok ↦ rw ok (
          omega (
            arith,
            length-append got (replicate (count - length got) 0),
            length-replicate {A = ℕ} (count - length got) 0,
            length-take count (drop f.pos f.bytes),
          ))
      | inr failed ↦ rw failed (length-replicate {A = ℕ} count 0)
    ]

false-true : false ≢ true
false-true e = cc

-- What a call of `loadNextBlock` that returns true does to `remaining_`.
abbrev Takes : DiskPostingIterator → Bool × DiskPostingIterator → Type 0
Takes s r = r.0 ≡ true → r.1.remaining < s.remaining

load_block-Takes :
    (header : List ℕ) (body : List ℕ × InputFile) (s : DiskPostingIterator)
    → length header ≡ header_size
    → 0 < s.remaining
    → Takes s (load_block header body s)
unfolding load_block is_nonempty
load_block-Takes header body s size going ok =
    let same : get_or (header ++ body.0) 1 0 ≡ get_or header 1 0 =
      get_or-append_left header body.0 1 0 (omega (arith, size)) in
    let some_docs : get_or header 1 0 ≢ 0 = λ e.
      false-true
        (ap is_nonempty (sym (decompress_block_none (header ++ body.0) (same ∙ e))) ∙ ok) in
    omega (arith, some_docs)

-- A block that is loaded takes from `remaining_`, whatever the file holds.
load_next_block-Takes : (s : DiskPostingIterator) → Takes s (load_next_block s)
unfolding load_next_block
load_next_block-Takes s = elim (Bool-cases (s.remaining == 0)) [
  | inl over ↦ rw over (λ e. absurd (false-true e))
  | inr going ↦ elim (Bool-cases (read header_size s.file).1.good) [
    | inl ok ↦
        rw (going, ok)
          (load_block-Takes (read header_size s.file).0
            (read (body_size (read header_size s.file).0) (read header_size s.file).1) s
            (length-read header_size s.file) (ground arith))
    | inr failed ↦ rw (going, failed) (λ e. absurd (false-true e))
  ]
]

scan_block-remaining :
    (t : ℕ) (s : DiskPostingIterator) → (scan_block t s).1.remaining ≡ s.remaining
unfolding scan_block take_current
scan_block-remaining t s = ground arith

scan_blocks_more :
    (fuel extra t : ℕ) (s : DiskPostingIterator)
    → s.remaining < fuel
    → scan_blocks (fuel + extra) t s ≡ scan_blocks fuel t s
unfolding scan_blocks
scan_blocks_more zero extra t s enough = absurd (omega arith)
scan_blocks_more (suc fuel) extra t s enough =
    let u = (load_next_block s).1 in
    let v = (scan_block t u).1 in
    rw suc-add (elim (Bool-cases (load_next_block s).0) [
      | inl ok ↦
          let less = load_next_block-Takes s ok in
          let ih =
            scan_blocks_more fuel extra t v
              (omega (arith, less, scan_block-remaining t u, enough)) in
          rw ih refl
      | inr over ↦ rw over refl
    ])

-- The loop of `seekToBlock` over `loadNextBlock` ends on any file, damaged ones included: after one
-- round more than `remaining_` says it has stopped, and further rounds change nothing.
pub scan_on_ends :
    (extra t : ℕ) (s : DiskPostingIterator)
    → scan_blocks (s.remaining + 1 + extra) t s ≡ scan_on t s
scan_on_ends extra t s = scan_blocks_more (s.remaining + 1) extra t s (omega arith)
