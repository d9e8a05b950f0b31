-- ===== src/Memory/PostingIterator/Laws.antt =====
-- The in-memory iterator keeps the contract of a cursor over its documents.
use piggy_engine.Prelude.{
  ℕ, zero, suc, ◌+◌, ◌≤◌, ◌<◌, List, [], ◌∷◌, Bool, true, false, not, ◌≡◌, refl, ap, sym, ◌∙◌, ◌⊎◌,
  inl, inr, arith, subst,
}
use piggy_engine.Prelude.{
  length, get_or, drop, if◌then◌else◌, ltb, leb, ◌==◌, ==_iff, Bool-cases, leb→le, leb→lt,
  drop-drop, drop-get_or, drop_past, length-drop,
}
use piggy_engine.Core.{invalid_doc}
use piggy_engine.Query.Docs.{IsAscending, drop_below, head_or_invalid, is_nonempty}
use piggy_engine.Query.Docs.Laws.{drop_below_behind, drop_below_reached}
use piggy_engine.Query.Cursor.{IsCursor}
use piggy_engine.Memory.PostingIterator.{
  MemoryPostingIterator, take_current, new, next, lower_bound, advance, is_end, cursor,
}

pub IsAscending-drop : (k : ℕ) (ds : List ℕ) → IsAscending ds → IsAscending (drop k ds)
IsAscending-drop zero ds h = h
IsAscending-drop (suc k) [] h = tt
IsAscending-drop (suc k) (d ∷ ds) h = IsAscending-drop k ds h.2

pub get_or-lt :
    (ds : List ℕ) (k : ℕ) → IsAscending ds → k < length ds → get_or ds k invalid_doc < invalid_doc
get_or-lt [] k h p = elim p [ ]
get_or-lt (d ∷ ds) zero h p = h.0
get_or-lt (d ∷ ds) (suc k) h p = get_or-lt ds k h.2 (omega arith)

-- Where `std::lower_bound` points, the documents below the target are behind.
pub drop-lower_bound :
    (ds : List ℕ) (target : ℕ) → drop (lower_bound ds target) ds ≡ drop_below target ds
unfolding lower_bound drop_below
drop-lower_bound [] target = refl
drop-lower_bound (d ∷ ds) target = elim (Bool-cases (ltb d target)) [
  | inl low ↦ rw low (drop-lower_bound ds target)
  | inr at ↦ rw at
]

pub lower_bound-le : (ds : List ℕ) (target : ℕ) → lower_bound ds target ≤ length ds
unfolding lower_bound
lower_bound-le [] target = omega arith
lower_bound-le (d ∷ ds) target = ground (arith, lower_bound-le ds target)

module _ {F : Type 0} where
  -- The cursor stands on document `k`, with its frequency.
  pub record IsAt (s : MemoryPostingIterator F) (k : ℕ) : Type 0 where
    pub pos_is : s.pos ≡ k + 1
    pub within : k < length s.docs
    pub doc_is : s.cur_doc ≡ get_or s.docs k invalid_doc
    pub tf_is : s.cur_tf ≡ get_or s.tfs k 1

  pub record IsValid (s : MemoryPostingIterator F) : Type 0 where
    pub sorted : IsAscending s.docs
    pub inside : s.pos ≤ length s.docs
    pub current : (s.cur_doc ≡ invalid_doc) ⊎ ((k : ℕ) × IsAt s k)

  unfoldable pub pending : MemoryPostingIterator F → List ℕ
  pending s = if s.cur_doc == invalid_doc then [] else s.cur_doc ∷ drop s.pos s.docs

  take_current-IsValid :
      (s : MemoryPostingIterator F)
      → IsAscending s.docs
      → s.pos < length s.docs
      → IsValid (take_current s)
  unfolding take_current
  take_current-IsValid s sorted p = record {
    sorted = sorted;
    inside = omega arith;
    current = inr (s.pos, record { pos_is = refl; within = p; doc_is = refl; tf_is = refl });
  }

  IsAt-lt : (s : MemoryPostingIterator F) (k : ℕ) → IsValid s → IsAt s k → s.cur_doc < invalid_doc
  IsAt-lt s k v a = rw a.doc_is (get_or-lt s.docs k v.sorted a.within)

  pending_here :
      (s : MemoryPostingIterator F)
      → s.cur_doc < invalid_doc
      → pending s ≡ s.cur_doc ∷ drop s.pos s.docs
  unfolding pending
  pending_here s small = let going : (s.cur_doc == invalid_doc) ≡ false = ground arith in rw going

  pending-IsAt :
      (s : MemoryPostingIterator F) (k : ℕ) → IsValid s → IsAt s k → pending s ≡ drop k s.docs
  pending-IsAt s k v a =
      pending_here s (IsAt-lt s k v a)
      ∙ rw (a.doc_is, a.pos_is) (sym (drop-get_or k s.docs invalid_doc a.within))

  pending_end : (s : MemoryPostingIterator F) → s.cur_doc ≡ invalid_doc → pending s ≡ []
  unfolding pending
  pending_end s e = rw e

  pending-take_current :
      (s : MemoryPostingIterator F)
      → IsAscending s.docs
      → s.pos < length s.docs
      → pending (take_current s) ≡ drop s.pos s.docs
  pending-take_current s sorted p =
      let v = take_current-IsValid s sorted p in
      pending-IsAt (take_current s) s.pos v
        (unfold take_current in record { pos_is = refl; within = p; doc_is = refl; tf_is = refl })
      ∙ unfold take_current in refl

  -- The two states of a valid cursor.
  pub pending-cases :
      (s : MemoryPostingIterator F)
      → IsValid s
      → ((s.cur_doc ≡ invalid_doc) × (pending s ≡ []))
        ⊎ ((s.cur_doc < invalid_doc) × (pending s ≡ s.cur_doc ∷ drop s.pos s.docs))
  pending-cases s v = elim v.current [
    | inl e ↦ inl (e, pending_end s e)
    | inr (k, a) ↦ let small = IsAt-lt s k v a in inr (small, pending_here s small)
  ]

  pending-IsAscending : (s : MemoryPostingIterator F) → IsValid s → IsAscending (pending s)
  pending-IsAscending s v = elim v.current [
    | inl e ↦ rw (pending_end s e) tt
    | inr (k, a) ↦ rw (pending-IsAt s k v a) (IsAscending-drop k s.docs v.sorted)
  ]

  -- A result with a valid cursor on the documents `l`.
  abbrev pub Moves : Bool × MemoryPostingIterator F → List ℕ → Type 0
  Moves r l = IsValid r.1 × (pending r.1 ≡ l) × (r.0 ≡ is_nonempty l)

  -- What `next` does to a valid cursor, at the end or not: it goes to index `pos`.
  pub next-to_pos : (s : MemoryPostingIterator F) → IsValid s → Moves (next s) (drop s.pos s.docs)
  unfolding next
  next-to_pos s v = elim (Bool-cases (leb (length s.docs) s.pos)) [
    | inl past ↦
        let gone = drop_past s.pos s.docs (leb→le (length s.docs) s.pos past) in
        rw (past, gone)
          (
            record { sorted = v.sorted; inside = v.inside; current = inl refl },
            pending_end (record s { cur_doc = invalid_doc }) refl,
            unfold is_nonempty in refl,
          )
    | inr more ↦
        let p = leb→lt (length s.docs) s.pos more in
        rw more (
          take_current-IsValid s v.sorted p,
          pending-take_current s v.sorted p,
          unfold is_nonempty in rw (drop-get_or s.pos s.docs invalid_doc p),
        )
  ]

  -- The last branch of `advance`, with `it` what `std::lower_bound` found.
  seek-Moves :
      (s : MemoryPostingIterator F) (it : ℕ)
      → IsValid s
      → it ≤ length s.docs
      → Moves
          (if it == length s.docs
            then (false, record s { cur_doc = invalid_doc })
            else (true, take_current (record s { pos = it })))
          (drop it s.docs)
  seek-Moves s it v le = elim (Bool-cases (it == length s.docs)) [
    | inl past ↦
        let gone = drop_past it s.docs (omega (arith, (==_iff it (length s.docs)).0 past)) in
        rw (past, gone)
          (
            record { sorted = v.sorted; inside = v.inside; current = inl refl },
            pending_end (record s { cur_doc = invalid_doc }) refl,
            unfold is_nonempty in refl,
          )
    | inr more ↦
        let p : it < length s.docs = ground arith in
        rw more (
          take_current-IsValid (record s { pos = it }) v.sorted p,
          pending-take_current (record s { pos = it }) v.sorted p,
          unfold is_nonempty in rw (drop-get_or it s.docs invalid_doc p),
        )
  ]

  advance-Moves :
      (s : MemoryPostingIterator F) (t : ℕ)
      → IsValid s
      → Moves (advance t s) (drop_below t (pending s))
  unfolding advance
  advance-Moves s t v = elim (pending-cases s v) [
    | inl (e, none) ↦
        let done : (s.cur_doc == invalid_doc) ≡ true = ground arith in
        rw (ap (drop_below t) none, done)
          (v, none ∙ unfold drop_below in refl, unfold drop_below is_nonempty in refl)
    | inr (small, here) ↦
        let going : (s.cur_doc == invalid_doc) ≡ false = ground arith in
        elim (Bool-cases (leb t s.cur_doc)) [
          | inl reached ↦
              rw
                (
                  ap (drop_below t) here
                      ∙ drop_below_reached t s.cur_doc (drop s.pos s.docs)
                          (leb→le t s.cur_doc reached),
                  going,
                  reached,
                )
                (v, here, unfold is_nonempty in refl)
          | inr behind ↦
              let rest = drop s.pos s.docs in
              let it = s.pos + lower_bound rest t in
              let found : drop_below t (pending s) ≡ drop it s.docs =
                ap (drop_below t) here
                ∙ drop_below_behind t s.cur_doc rest (leb→lt t s.cur_doc behind)
                ∙ sym (drop-lower_bound rest t)
                ∙ drop-drop s.pos (lower_bound rest t) s.docs in
              rw (found, going, behind)
                (seek-Moves s it v
                  (omega (arith, lower_bound-le rest t, length-drop s.pos s.docs, v.inside)))
        ]
  ]

  next-Moves :
      (s : MemoryPostingIterator F) (d : ℕ) (ds : List ℕ)
      → IsValid s
      → pending s ≡ d ∷ ds
      → Moves (next s) ds
  next-Moves s d ds v e = elim (pending-cases s v) [
    | inl (ended, none) ↦ cc
    | inr (small, here) ↦
        let same : drop s.pos s.docs ≡ ds = cc in subst (Moves (next s)) same (next-to_pos s v)
  ]

  doc_id-head : (s : MemoryPostingIterator F) → IsValid s → s.cur_doc ≡ head_or_invalid (pending s)
  unfolding head_or_invalid
  doc_id-head s v = elim (pending-cases s v) [
    | inl (ended, none) ↦ rw none ended
    | inr (small, here) ↦ rw here
  ]

  is_end-pending :
      (s : MemoryPostingIterator F) → IsValid s → is_end s ≡ not (is_nonempty (pending s))
  unfolding is_end is_nonempty
  is_end-pending s v = elim (pending-cases s v) [
    | inl (ended, none) ↦ rw none (ground arith)
    | inr (small, here) ↦ rw here (ground arith)
  ]

  -- The in-memory iterator is a cursor over `pending`: `next` goes to the next document, `advance`
  -- to the first one at or after the target, and both return whether there is one.
  pub memory-IsCursor : IsCursor (cursor {F = F}) IsValid pending
  memory-IsCursor = record {
    ascending = pending-IsAscending;
    doc_id_is = doc_id-head;
    is_end_is = is_end-pending;
    next_valid = λ s d ds v e. (next-Moves s d ds v e).0;
    next_moves = λ s d ds v e. (next-Moves s d ds v e).1;
    next_returns = λ s d ds v e. (next-Moves s d ds v e).2;
    advance_valid = λ s t v. (advance-Moves s t v).0;
    advance_moves = λ s t v. (advance-Moves s t v).1;
    advance_returns = λ s t v. (advance-Moves s t v).2;
  }

  pub new-Moves :
      (docs tfs : List ℕ) (ub : F)
      → IsAscending docs
      → IsValid (new docs tfs ub) × (pending (new docs tfs ub) ≡ docs)
  unfolding new
  new-Moves [] tfs ub h =
      (record { sorted = tt; inside = omega arith; current = inl refl }, pending_end _ refl)
  new-Moves (d ∷ ds) tfs ub h =
      let s : MemoryPostingIterator F = record {
        docs = d ∷ ds;
        tfs = tfs;
        pos = 0;
        cur_doc = invalid_doc;
        cur_tf = 1;
        upper_bound = ub;
      } in
      (take_current-IsValid s h (omega arith), pending-take_current s h (omega arith))
