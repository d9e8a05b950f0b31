-- ===== src/Store/PostingIterator/Laws.antt =====
-- The iterator over a posting list on disk keeps the contract of a cursor over its documents.
use piggy_engine.Prelude.{
  ℕ, ◌+◌, ◌*◌, List, [], ◌∷◌, ◌++◌, Bool, true, false, not, ◌≡◌, refl, arith, ap, sym, ◌∙◌, ◌≢◌,
  subst, inl, inr,
}
use piggy_engine.Prelude.{
  length, drop, if◌then◌else◌, ltb, leb, leb→le, leb→lt, ltb→le, ltb→lt, ◌==◌, drop-drop,
  Bool-cases, drop_past,
}
use piggy_engine.Core.{invalid_doc}
use piggy_engine.Codec.PForDelta.Stream.{block_size}
use piggy_engine.Memory.PostingIterator.Laws.{IsAscending-drop}
use piggy_engine.Query.Cursor.{IsCursor}
use piggy_engine.Query.Docs.{IsAscending, drop_below, head_or_invalid, is_nonempty}
use piggy_engine.Query.Docs.Laws.{drop_below_behind, drop_below_reached}
use piggy_engine.Store.PostingIterator.{
  DiskPostingIterator, scan_block, next, seek_to_block, advance, is_end, cursor,
}
use piggy_engine.Store.PostingIterator.Scan.{scan_block-cases, past, from_start}
use piggy_engine.Store.PostingIterator.Seek.{seek_to_block-Moves}
use piggy_engine.Store.PostingIterator.Valid.{
  IsReady, left, behind, Moves, IsOn, IsValid, pending, IsOn-lt, pending-IsOn, pending_end,
  load-cases, ended-Moves, IsOn-Moves, take_current-Moves,
}

not-nil : {d : ℕ} {ds : List ℕ} → ◌≢◌ {A = List ℕ} [] (d ∷ ds)
not-nil e = cc

module _ (docs : List ℕ) where
  -- `next`, also from the state that the constructor starts in: it goes to the document behind.
  pub next-to_pos :
      (s : DiskPostingIterator) (k : ℕ)
      → IsReady docs s
      → behind docs s ≡ drop k docs
      → Moves docs (next s) (behind docs s)
  unfolding next
  next-to_pos s k ready part = elim (Bool-cases (ltb s.cur_pos (length s.cur_block))) [
    | inl more ↦
        rw more
          (take_current-Moves docs s k ready (ltb→lt s.cur_pos (length s.cur_block) more) part)
    | inr done ↦
        let gone : behind docs s ≡ left docs s =
          ap (λ (l : List ℕ). l ++ left docs s)
            (drop_past s.cur_pos s.cur_block (ltb→le s.cur_pos (length s.cur_block) done)) in
        elim (load-cases docs s ready) [
          | inl (over, e) ↦
              subst (Moves docs (next s)) (sym (gone ∙ over))
                (rw (done, e) (ended-Moves docs (record s { cur_doc = invalid_doc }) refl))
          | inr (u, e, l) ↦
              let same = from_start docs s u l in
              subst (Moves docs (next s)) (same ∙ sym gone) (
                rw (done, e)
                  (take_current-Moves docs u (block_size * s.cur_block_idx) l.ready
                    (omega (arith, l.start, l.some_docs)) same))
        ]
  ]

  -- The documents behind the current one are a part of the list.
  behind_suffix :
      (s : DiskPostingIterator) (on : IsOn docs s) → behind docs s ≡ drop (on.k + 1) docs
  behind_suffix s on = ap (λ (l : List ℕ). drop 1 l) on.at ∙ drop-drop on.k 1 docs

  next-Moves :
      (s : DiskPostingIterator) (d : ℕ) (ds : List ℕ)
      → IsValid docs s
      → pending docs s ≡ d ∷ ds
      → Moves docs (next s) ds
  next-Moves s d ds v e = elim v [
    | inl over ↦ absurd (not-nil (sym (pending_end docs s over) ∙ e))
    | inr on ↦
        let same : behind docs s ≡ ds =
          ap (λ (l : List ℕ). drop 1 l) (sym (pending-IsOn docs s on) ∙ e) in
        subst (Moves docs (next s)) same (next-to_pos s (on.k + 1) on.ready (behind_suffix s on))
  ]

  -- `advance` from a document below the target.
  advance_below :
      (s : DiskPostingIterator) (t : ℕ)
      → IsOn docs s
      → (s.cur_doc == invalid_doc) ≡ false
      → leb t s.cur_doc ≡ false
      → Moves docs (advance t s) (drop_below t (behind docs s))
  unfolding advance
  advance_below s t on going below =
      elim (scan_block-cases docs s t (on.k + 1) on.ready on.inside (behind_suffix s on)) [
        | inl (ok, moves) ↦
            rw (going, below)
              (subst
                (λ (b : Bool).
                  Moves docs (if b then scan_block t s else seek_to_block t (scan_block t s).1)
                    (drop_below t (behind docs s)))
                (sym ok) moves)
        | inr (missed, gone) ↦
            subst (Moves docs (advance t s)) (sym gone)
              (rw (going, below, missed) (seek_to_block-Moves docs (past docs s) on.ready t))
      ]

  advance-Moves :
      (s : DiskPostingIterator) (t : ℕ)
      → IsValid docs s
      → Moves docs (advance t s) (drop_below t (pending docs s))
  unfolding advance
  advance-Moves s t v = elim v [
    | inl over ↦
        let ended : (s.cur_doc == invalid_doc) ≡ true = ground arith in
        let no_docs : drop_below t (pending docs s) ≡ [] =
          ap (drop_below t) (pending_end docs s over) ∙ unfold drop_below in refl in
        subst (Moves docs (advance t s)) (sym no_docs) (rw ended (ended-Moves docs s over))
    | inr on ↦
        let small = IsOn-lt docs s on in
        let going : (s.cur_doc == invalid_doc) ≡ false = ground arith in
        let here = ap (drop_below t) (pending-IsOn docs s on) in
        elim (Bool-cases (leb t s.cur_doc)) [
          | inl reached ↦
              let same =
                drop_below_reached t s.cur_doc (behind docs s) (leb→le t s.cur_doc reached) in
              subst (Moves docs (advance t s)) (sym (here ∙ same))
                (rw (going, reached) (IsOn-Moves docs s (s.cur_doc ∷ behind docs s) on refl))
          | inr below ↦
              subst (Moves docs (advance t s))
                (sym
                  (here ∙ drop_below_behind t s.cur_doc (behind docs s) (leb→lt t s.cur_doc below)))
                (advance_below s t on going below)
        ]
  ]

  pending-IsAscending : (s : DiskPostingIterator) → IsValid docs s → IsAscending (pending docs s)
  pending-IsAscending s v = elim v [
    | inl over ↦ rw (pending_end docs s over) tt
    | inr on ↦
        subst IsAscending (sym (pending-IsOn docs s on ∙ on.at))
          (IsAscending-drop on.k docs on.ready.posting.sorted)
  ]

  doc_id-head :
      (s : DiskPostingIterator) → IsValid docs s → s.cur_doc ≡ head_or_invalid (pending docs s)
  unfolding head_or_invalid
  doc_id-head s v = elim v [
    | inl over ↦ rw (pending_end docs s over) over
    | inr on ↦ rw (pending-IsOn docs s on) refl
  ]

  is_end-pending :
      (s : DiskPostingIterator) → IsValid docs s → is_end s ≡ not (is_nonempty (pending docs s))
  unfolding is_end is_nonempty
  is_end-pending s v = elim v [
    | inl over ↦ rw (pending_end docs s over) (ground arith)
    | inr on ↦ let small = IsOn-lt docs s on in rw (pending-IsOn docs s on) (ground arith)
  ]

  -- The iterator over a posting list on disk is a cursor over `pending`: `next` goes to the next
  -- document, block by block, `advance` to the first one at or after the target, within the block or
  -- through the skip list, and both return whether there is one.
  pub disk-IsCursor : IsCursor cursor (IsValid docs) (pending docs)
  disk-IsCursor = record {
    ascending = pending-IsAscending;
    doc_id_is = doc_id-head;
    is_end_is = is_end-pending;
    next_valid = λ s d ds v e. (next-Moves s d ds v e).0;
    next_moves = λ s d ds v e. (next-Moves s d ds v e).1;
    next_returns = λ s d ds v e. (next-Moves s d ds v e).2;
    advance_valid = λ s t v. (advance-Moves s t v).0;
    advance_moves = λ s t v. (advance-Moves s t v).1;
    advance_returns = λ s t v. (advance-Moves s t v).2;
  }
