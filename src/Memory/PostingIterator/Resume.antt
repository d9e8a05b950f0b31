-- ===== src/Memory/PostingIterator/Resume.antt =====
-- `next` behind the end: `advance` that fails leaves `pos_` where it was.
use piggy_engine.Prelude.{ℕ, ◌+◌, List, false, ◌≡◌, refl, subst, ap₂}
use piggy_engine.Prelude.{length, drop, leb, ◌==◌, Bool-cases, inl, inr}
use piggy_engine.Core.{invalid_doc}
use piggy_engine.Memory.PostingIterator.{MemoryPostingIterator, lower_bound, advance, next}
use piggy_engine.Memory.PostingIterator.Laws.{IsValid, Moves, memory-IsCursor, next-to_pos}

module _ {F : Type 0} where
  failed-stays :
      (s : MemoryPostingIterator F) (t : ℕ)
      → (advance t s).0 ≡ false
      → ((advance t s).1.pos ≡ s.pos) × ((advance t s).1.docs ≡ s.docs)
  unfolding advance
  failed-stays s t h = elim (Bool-cases (s.cur_doc == invalid_doc)) [
    | inl over ↦ rw over (refl, refl)
    | inr going ↦ elim (Bool-cases (leb t s.cur_doc)) [
      | inl there ↦ cc
      | inr behind ↦
          let it = s.pos + lower_bound (drop s.pos s.docs) t in
          elim (Bool-cases (it == length s.docs)) [
            | inl past ↦ rw (going, behind, past) (refl, refl)
            | inr found ↦ cc
          ]
    ]
  ]

  -- After an `advance` of the in-memory iterator that returned false, `next` does not stay at the
  -- end: it goes on with the first document that the iterator had not reached before the `advance`,
  -- and returns true if there is one.
  pub next-failed_advance :
      (s : MemoryPostingIterator F) (t : ℕ)
      → IsValid s
      → (advance t s).0 ≡ false
      → Moves (next (advance t s).1) (drop s.pos s.docs)
  next-failed_advance s t v h =
      let stays = failed-stays s t h in
      subst (Moves (next (advance t s).1)) (ap₂ (λ (n : ℕ) (l : List ℕ). drop n l) stays.0 stays.1)
        (next-to_pos (advance t s).1 (memory-IsCursor.advance_valid s t v))
