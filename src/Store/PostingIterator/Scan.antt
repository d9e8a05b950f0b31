-- ===== src/Store/PostingIterator/Scan.antt =====
-- `scanBlock`, and the loop that goes from block to block.
use piggy_engine.Prelude.{
  ℕ, zero, suc, ◌+◌, ◌*◌, ◌≤◌, ◌<◌, List, [], ◌++◌, true, false, ◌≡◌, refl, arith, ap, sym, ◌∙◌,
  subst, ◌⊎◌, inl, inr,
}
use piggy_engine.Prelude.{length, drop, ◌==◌, drop-drop, length-drop, Bool-cases}
use piggy_engine.Core.{invalid_doc}
use piggy_engine.Memory.PostingIterator.{lower_bound}
use piggy_engine.Memory.PostingIterator.Laws.{lower_bound-le}
use piggy_engine.Query.Docs.{drop_below}
use piggy_engine.Store.PostingIterator.{DiskPostingIterator, take_current, scan_block, scan_blocks}
use piggy_engine.Store.PostingIterator.Docs.{drop_below-append, drop_below_suffix}
use piggy_engine.Store.PostingIterator.Valid.{
  IsReady, left, behind, Moves, IsLoaded, load-cases, ended-Moves, take_current-Moves,
}

module _ (docs : List ℕ) where
  abbrev pub past : DiskPostingIterator → DiskPostingIterator
  past s = record s { cur_pos = length s.cur_block }

  -- `scanBlock` finds the target in the block, or the target is behind the block.
  pub scan_block-cases :
      (s : DiskPostingIterator) (t k : ℕ)
      → IsReady docs s
      → s.cur_pos ≤ length s.cur_block
      → behind docs s ≡ drop k docs
      → ((scan_block t s).0 ≡ true × Moves docs (scan_block t s) (drop_below t (behind docs s)))
        ⊎ ((scan_block t s ≡ (false, past s))
            × (drop_below t (behind docs s) ≡ drop_below t (left docs s)))
  unfolding scan_block
  scan_block-cases s t k ready inside e =
      let rest = drop s.cur_pos s.cur_block in
      let low = lower_bound rest t in
      let it = s.cur_pos + low in
      let size = length-drop s.cur_pos s.cur_block in
      let split = drop_below-append t rest (left docs s) in
      let bound = lower_bound-le rest t in
      elim (Bool-cases (it == length s.cur_block)) [
        | inl gone ↦
            let same : (low == length rest) ≡ true = ground (arith, size) in
            inr (rw gone refl, split ∙ rw same refl)
        | inr found ↦
            let other : (low == length rest) ≡ false = ground (arith, size) in
            let s1 : DiskPostingIterator = record s { cur_pos = it } in
            let there : behind docs s1 ≡ drop_below t (behind docs s) =
              ap (λ (l : List ℕ). l ++ left docs s) (sym (drop-drop s.cur_pos low s.cur_block))
              ∙ sym (split ∙ rw other refl) in
            let (j, suffix) = drop_below_suffix t (drop k docs) in
            let part : behind docs s1 ≡ drop (k + j) docs =
              there ∙ ap (drop_below t) e ∙ suffix ∙ drop-drop k j docs in
            let within : it < length s.cur_block = ground (arith, size, bound) in
            inl (
              rw found refl,
              rw found (
                  subst (Moves docs (true, take_current s1)) there
                    (take_current-Moves docs s1 (k + j) ready within part)),
            )
      ]

  -- A block that was just loaded, and what is left behind it.
  pub from_start : (s u : DiskPostingIterator) → IsLoaded docs s u → behind docs u ≡ left docs s
  from_start s u l = ap (λ (k : ℕ). drop k u.cur_block ++ left docs u) l.start ∙ l.split

  -- The loop `while (loadNextBlock())` stops at the target, in one of the blocks that are left, or at
  -- the end.
  pub scan_blocks-Moves :
      (fuel t : ℕ) (s : DiskPostingIterator)
      → IsReady docs s
      → s.remaining < fuel
      → Moves docs (scan_blocks fuel t s) (drop_below t (left docs s))
  unfolding scan_blocks scan_block
  scan_blocks-Moves zero t s ready enough = absurd (omega arith)
  scan_blocks-Moves (suc fuel) t s ready enough = elim (load-cases docs s ready) [
    | inl (over, e) ↦
        let no_docs : drop_below t (left docs s) ≡ [] =
          ap (drop_below t) over ∙ unfold drop_below in refl in
        subst (Moves docs (scan_blocks (suc fuel) t s)) (sym no_docs)
          (rw e (ended-Moves docs (record s { cur_doc = invalid_doc }) refl))
    | inr (u, e, l) ↦
        let same = from_start s u l in
        elim (scan_block-cases u t (128 * s.cur_block_idx) l.ready (omega (arith, l.start)) same) [
          | inl (ok, moves) ↦
              subst (Moves docs (scan_blocks (suc fuel) t s)) (ap (drop_below t) same)
                (rw (e, ok) moves)
          | inr (missed, gone) ↦
              let ih = scan_blocks-Moves fuel t (past u) l.ready (omega (arith, l.less, enough)) in
              subst (Moves docs (scan_blocks (suc fuel) t s)) (sym gone ∙ ap (drop_below t) same)
                (rw (e, missed) ih)
        ]
  ]
