-- ===== src/Store/PostingIterator/Skips.antt =====
-- The skip list of a file: its nodes are sorted, and the constructor reads it.
use piggy_engine.Prelude.{
  ℕ, zero, suc, ◌+◌, ◌*◌, ◌≤◌, ◌<◌, List, [], ◌∷◌, ◌++◌, true, ◌≡◌, refl, arith, ap, sym, ◌∙◌,
}
use piggy_engine.Prelude.{
  length, take, drop, All, length-append, take-append_length, drop-drop, All-take, All-drop,
}
use piggy_engine.Prelude.Words.{u32, add32, read_u32, read_u32_bytes, u32_bytes}
use piggy_engine.Core.{SkipNode}
use piggy_engine.Codec.PForDelta.Block.{last_or}
use piggy_engine.Codec.PForDelta.Stream.{block_size}
use piggy_engine.Codec.PForDelta.Stream.Blocks.{Chain}
use piggy_engine.Codec.SkipList.{SkipList, node_size, nodes_bytes, serialize}
use piggy_engine.Codec.SkipList.Find.{IsSorted}
use piggy_engine.Codec.SkipList.Serial.{length-nodes_bytes}
use piggy_engine.Query.Docs.{IsAscending}
use piggy_engine.Query.Docs.Laws.{All-weaken}
use piggy_engine.Memory.PostingIterator.Laws.{IsAscending-drop}
use piggy_engine.Store.InputFile.{InputFile, opened, seek, read, read_full}
use piggy_engine.Store.PostingIterator.{read_skip_list}

last_or-ge : (b d : ℕ) (ds : List ℕ) → b ≤ d → All (λ e. b ≤ e) ds → b ≤ last_or ds d
unfolding last_or
last_or-ge b d [] h all = h
last_or-ge b d (e ∷ es) h all = last_or-ge b e es all.0 all.1

block-ge :
    (b : ℕ) (ds : List ℕ) → 1 ≤ length ds → All (λ e. b ≤ e) ds → b ≤ last_or (take block_size ds) 0
unfolding last_or
block-ge b [] h all = absurd (omega arith)
block-ge b (d ∷ ds) h all = last_or-ge b d (take 127 ds) all.0 (All-take (λ e. b ≤ e) 127 ds all.1)

Chain-ge :
    (b : ℕ) (ns : List SkipNode) (bytes docs : List ℕ) (off : ℕ)
    → Chain bytes off ns docs
    → All (λ d. b ≤ d) docs
    → All (λ n. b ≤ n.max_doc_id) ns
Chain-ge b [] bytes docs off c all = tt
Chain-ge b (n ∷ ns) bytes docs off (here, tail, h, c) all = (
  omega (arith, h.last, block-ge b docs h.some_docs all),
  Chain-ge b ns tail (drop block_size docs) (off + length here) c
      (All-drop (λ d. b ≤ d) block_size docs all),
)

above :
    (k d : ℕ) (ds : List ℕ)
    → IsAscending (d ∷ ds)
    → All (λ e. last_or (take k ds) d ≤ e) (drop k ds)
unfolding last_or
above zero d ds h = All-weaken d d ds (omega arith) h.1
above (suc k) d [] h = tt
above (suc k) d (e ∷ es) h = above k e es h.2

-- What is behind a block is above its last document.
above_last :
    (ds : List ℕ)
    → IsAscending ds
    → All (λ e. last_or (take block_size ds) 0 ≤ e) (drop block_size ds)
unfolding last_or
above_last [] h = tt
above_last (d ∷ ds) h = above 127 d ds h

pub Chain-IsSorted :
    (ns : List SkipNode) (bytes docs : List ℕ) (off : ℕ)
    → Chain bytes off ns docs
    → IsAscending docs
    → IsSorted ns
Chain-IsSorted [] bytes docs off c sorted = tt
Chain-IsSorted (n ∷ ns) bytes docs off (here, tail, h, c) sorted = (
  Chain-ge n.max_doc_id ns tail (drop block_size docs) (off + length here) c
      (rw h.last (above_last docs sorted)),
  Chain-IsSorted ns tail (drop block_size docs) (off + length here) c
      (IsAscending-drop block_size docs sorted),
)

module _ (content : List ℕ) (offset c0 c1 : ℕ) (rest after : List ℕ) where
  -- The reads of the constructor at a skip list of `c0` and `c1` nodes.
  read_skip_list-full :
      drop offset content ≡ (u32_bytes c0 ++ (u32_bytes c1 ++ rest)) ++ after
      → c0 + c1 < u32
      → length rest ≡ (c0 + c1) * node_size
      → read_skip_list offset (opened content) ≡ (
        u32_bytes c0 ++ (u32_bytes c1 ++ rest),
        record { bytes = content; pos = offset + (8 + (c0 + c1) * node_size); good = true },
      )
  unfolding read_skip_list seek add32
  read_skip_list-full at small size =
      let f0 : InputFile = record { bytes = content; pos = offset; good = true } in
      let f4 : InputFile = record { bytes = content; pos = offset + 4; good = true } in
      let long : length (drop offset content) ≡ 8 + (length rest + length after) =
        ap length at ∙ omega (arith, length-append rest after) in
      let behind : drop (offset + 4) content ≡ (u32_bytes c1 ++ rest) ++ after =
        sym (drop-drop offset 4 content) ∙ ap (drop 4) at in
      let first : read 4 f0 ≡ (u32_bytes c0, f4) =
        read_full 4 f0 refl (omega (arith, long)) ∙ ap (λ (l : List ℕ). (take 4 l, f4)) at in
      let second : read 4 f4
          ≡ (u32_bytes c1, record { bytes = content; pos = offset + 4 + 4; good = true }) =
        read_full 4 f4 refl (omega (arith, ap length behind, length-append rest after))
        ∙ ap
            (λ (l : List ℕ).
              (take 4 l, record { bytes = content; pos = offset + 4 + 4; good = true }))
            behind in
      let total : add32 (read_u32 (u32_bytes c0)) (read_u32 (u32_bytes c1)) ≡ c0 + c1 =
        rw (read_u32_bytes c0 [] (omega arith), read_u32_bytes c1 [] (omega arith)) (omega arith) in
      let size_is : 8 + (c0 + c1) * node_size ≡ length (u32_bytes c0 ++ (u32_bytes c1 ++ rest)) =
        omega (arith, size) in
      let whole : read (8 + (c0 + c1) * node_size) f0 ≡ (
        u32_bytes c0 ++ (u32_bytes c1 ++ rest),
        record { bytes = content; pos = offset + (8 + (c0 + c1) * node_size); good = true },
      ) =
        read_full (8 + (c0 + c1) * node_size) f0 refl (omega (arith, long, size))
        ∙ ap
            (λ (l : List ℕ). (
              l,
              record { bytes = content; pos = offset + (8 + (c0 + c1) * node_size); good = true },
            ))
            (ap (take (8 + (c0 + c1) * node_size)) at
              ∙ ap (λ (k : ℕ). take k ((u32_bytes c0 ++ (u32_bytes c1 ++ rest)) ++ after)) size_is
              ∙ take-append_length (u32_bytes c0 ++ (u32_bytes c1 ++ rest)) after) in
      rw (first, second, total) whole

-- The same at the bytes of `serialize`.
pub read_skip_list-serialize :
    (p0 p1 p2 p3 : ℕ) (sl : SkipList) (content after : List ℕ) (offset : ℕ)
    → drop offset content ≡ serialize (p0 ∷ p1 ∷ p2 ∷ p3 ∷ []) sl ++ after
    → length sl.level0 + length sl.level1 < u32
    → read_skip_list offset (opened content) ≡ (
      serialize (p0 ∷ p1 ∷ p2 ∷ p3 ∷ []) sl,
      record {
        bytes = content;
        pos = offset + (8 + (length sl.level0 + length sl.level1) * node_size);
        good = true;
      },
    )
unfolding serialize
read_skip_list-serialize p0 p1 p2 p3 sl content after offset at few =
    let pads = p0 ∷ p1 ∷ p2 ∷ p3 ∷ [] in
    let first = nodes_bytes pads sl.level0 in
    let second = nodes_bytes pads sl.level1 in
    read_skip_list-full content offset (length sl.level0) (length sl.level1) (first ++ second) after
      at few
      (omega (
        arith,
        length-append first second,
        length-nodes_bytes p0 p1 p2 p3 sl.level0,
        length-nodes_bytes p0 p1 p2 p3 sl.level1,
      ))
