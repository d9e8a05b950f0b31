-- ===== src/Store/PostingIterator/Seek.antt =====
-- The iterator over a posting list on disk goes to the block of a target: `seekToBlock`.
use piggy_engine.Prelude.{
  ℕ, ◌+◌, ◌-◌, ◌*◌, ◌%◌, ◌<◌, List, ◌∷◌, ◌++◌, true, false, ◌≡◌, refl, arith, ap, sym, ◌∙◌, subst,
  inl, inr,
}
use piggy_engine.Prelude.{
  length, drop, All, ltb, ltb→le, lt→ltb, ◌==◌, drop-drop, length-drop, Bool-cases,
}
use piggy_engine.Prelude.Words.{u64}
use piggy_engine.Core.{SkipNode}
use piggy_engine.Codec.PForDelta.Stream.{block_size}
use piggy_engine.Codec.PForDelta.Stream.Blocks.{Chain, Chain-IsJump}
use piggy_engine.Query.Docs.{drop_below}
use piggy_engine.Query.Docs.Laws.{length-IsAscending}
use piggy_engine.Store.InputFile.{seek, clear}
use piggy_engine.Store.PostingIterator.{
  DiskPostingIterator, scan_blocks, jump, docs_before, seek_to_block,
}
use piggy_engine.Store.PostingIterator.Docs.{drop_below-drop, Chain-below, Chain-docs_before}
use piggy_engine.Store.PostingIterator.Scan.{scan_blocks-Moves}
use piggy_engine.Store.PostingIterator.Valid.{IsReady, left, from_block, Moves}

module _ (docs : List ℕ) where
  module _ (s : DiskPostingIterator) (ready : IsReady docs s) where
    abbrev bytes_there : List ℕ
    bytes_there = drop s.meta.posting_offset s.file.bytes

    -- The state that the jump to the block of `n` leads to.
    jump-IsReady :
        (before : List SkipNode) (n : SkipNode) (after : List SkipNode)
        → Chain bytes_there 0 (before ++ n ∷ after) docs
        → s.skip_list.level0 ≡ before ++ n ∷ after
        → IsReady docs (jump n.byte_offset (length before) s)
    unfolding jump seek clear
    jump-IsReady before n after chain e =
        let posting = ready.posting in
        let (gap, j) = Chain-IsJump before n after bytes_there docs 0 chain in
        let few = length-IsAscending docs posting.sorted in
        let full : docs_before (length before) s.skip_list.level0 0 ≡ block_size * length before =
          ap (λ (l : List SkipNode). docs_before (length before) l 0) e
          ∙ Chain-docs_before before n after bytes_there docs 0 0 chain (omega arith)
          ∙ omega arith in
        let more : ltb (block_size * length before) s.meta.doc_freq ≡ true =
          lt→ltb (block_size * length before) s.meta.doc_freq
            (omega (arith, j.more, posting.freq)) in
        let pos : (s.meta.posting_offset + n.byte_offset) % u64
            ≡ s.meta.posting_offset + (0 + gap) =
          omega
            (arith, j.at, j.fits, length-drop s.meta.posting_offset s.file.bytes, posting.size) in
        record {
          posting = posting;
          good = refl;
          count =
              rw (full, more)
                (omega (arith, posting.freq, length-drop (block_size * length before) docs));
          nodes = n ∷ after;
          off = 0 + gap;
          ahead =
              subst
                (λ (l : List ℕ). Chain l (0 + gap) (n ∷ after) (from_block docs (length before)))
                (ap (λ (k : ℕ). drop k bytes_there) (omega arith)
                  ∙ drop-drop s.meta.posting_offset (0 + gap) s.file.bytes
                  ∙ ap (λ (k : ℕ). drop k s.file.bytes) (sym pos))
                j.chain;
        }

    scan_on-Moves :
        (t : ℕ) → Moves docs (scan_blocks (s.remaining + 1) t s) (drop_below t (left docs s))
    scan_on-Moves t = scan_blocks-Moves docs (s.remaining + 1) t s ready (omega arith)

  -- What `find` answers, in the shape that `seekToBlock` tests.
  module _ (s : DiskPostingIterator) (ready : IsReady docs s) (t : ℕ) where
    seek_jump :
        (before : List SkipNode) (n : SkipNode) (after : List SkipNode)
        → s.skip_list.level0 ≡ before ++ n ∷ after
        → All (λ m. m.max_doc_id < t) before
        → ltb (length before) s.cur_block_idx ≡ false
        → Moves docs
            (scan_blocks
              ((jump n.byte_offset (length before) s).remaining + 1)
              t
              (jump n.byte_offset (length before) s))
            (drop_below t (left docs s))
    unfolding jump
    seek_jump before n after e low ahead =
        let chain : Chain (bytes_there s ready) 0 (before ++ n ∷ after) docs =
          subst (λ (l : List SkipNode). Chain (bytes_there s ready) 0 l docs) e
            ready.posting.chain in
        let below =
          Chain-below t before (n ∷ after) (bytes_there s ready) docs 0 chain ready.posting.sorted
            low in
        let same : drop_below t (left docs s) ≡ drop_below t (from_block docs (length before)) =
          drop_below-drop t (block_size * s.cur_block_idx) (block_size * length before) docs
            (omega (arith, ltb→le (length before) s.cur_block_idx ahead)) below in
        let there = jump n.byte_offset (length before) s in
        subst (Moves docs (scan_blocks (there.remaining + 1) t there)) (sym same)
          (scan_on-Moves there (jump-IsReady s ready before n after chain e) t)

    pub seek_to_block-Moves : Moves docs (seek_to_block t s) (drop_below t (left docs s))
    unfolding seek_to_block
    seek_to_block-Moves =
        let on = scan_on-Moves s ready t in
        elim (Bool-cases (length s.skip_list.level0 == 0)) [
          | inl empty ↦ rw empty on
          | inr some_nodes ↦ elim (ready.posting.found t) [
            | inl (all, none_found) ↦ rw (some_nodes, none_found) on
            | inr (before, n, after, e, low, hit, found) ↦
                let at_zero : 0 + length before ≡ length before = omega arith in
                elim (Bool-cases (ltb (length before) s.cur_block_idx)) [
                  | inl back ↦ elim (Bool-cases (n.byte_offset == u64 - 1)) [
                    | inl far ↦ rw (some_nodes, found, far) on
                    | inr near ↦ rw (some_nodes, found, near, at_zero, back) on
                  ]
                  | inr ahead ↦ elim (Bool-cases (n.byte_offset == u64 - 1)) [
                    | inl far ↦ rw (some_nodes, found, far) on
                    | inr near ↦
                        rw (some_nodes, found, near, at_zero, ahead)
                          (seek_jump before n after e low ahead)
                  ]
                ]
          ]
        ]
