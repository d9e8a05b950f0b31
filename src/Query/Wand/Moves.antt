-- ===== src/Query/Wand/Moves.antt =====
-- The children only move forward.
use piggy_engine.Prelude.{
  ℕ, zero, suc, ◌+◌, ◌≤◌, ◌<◌, List, [], ◌∷◌, Bool, true, false, not, ◌&&◌, ◌≡◌, refl, sym, ap,
  subst, ◌∙◌, inl, inr, arith,
}
use piggy_engine.Prelude.{length, All, ltb, ◌==◌, Bool-cases}
use piggy_engine.Core.{invalid_doc}
use piggy_engine.Query.Docs.{mem, drop_below, head_or_invalid, is_nonempty}
use piggy_engine.Query.Docs.Laws.{
  drop_below_behind, drop_below-ge, length-drop_below, mem_of-drop_below, All-of-drop_below,
}
use piggy_engine.Query.Docs.Cases.{nonempty-cons, empty-nil, none_before, not-true, not-false}
use piggy_engine.Query.Cursor.{Scorer, IsCursor}
use piggy_engine.Query.Wand.{
  catch_up, align_lagging_cursors, past_block, skip_block, past_pivot, move_past,
}

-- the sum over the elements
unfoldable pub total : {A : Type 0} → (A → ℕ) → List A → ℕ
total f [] = 0
total f (x ∷ xs) = f x + total f xs

module _ {F S : Type 0} (sc : Scorer F S) {IsValid : S → Type 0} {pending : S → List ℕ}
    (ic : IsCursor sc.cursor IsValid pending) (known : ℕ → Bool) where
  -- A child whose documents are known, and none is below `floor`.
  pub record IsGood (floor : ℕ) (s : S) : Type 0 where
    pub valid : IsValid s
    pub above : All (λ d. floor ≤ d) (pending s)
    pub among : (d : ℕ) → mem d (pending s) ≡ true → known d ≡ true

  abbrev pub left : S → ℕ
  left s = length (pending s)

  advance-IsGood : (floor t : ℕ) (s : S) → IsGood floor s → IsGood floor (sc.cursor.advance t s).1
  advance-IsGood floor t s g =
      let e = ic.advance_moves s t g.valid in
      record {
        valid = ic.advance_valid s t g.valid;
        above = rw e (All-of-drop_below floor t (pending s) g.above);
        among = λ d here. g.among d (mem_of-drop_below d t (pending s) (rw e at here));
      }

  advance-left : (t : ℕ) (s : S) → IsValid s → left (sc.cursor.advance t s).1 ≤ left s
  advance-left t s v =
      omega (arith, ap length (ic.advance_moves s t v), length-drop_below t (pending s))

  pub going-cons :
      (s : S)
      → IsValid s
      → sc.cursor.is_end s ≡ false
      → (d : ℕ) × (ds : List ℕ) × (pending s ≡ d ∷ ds) × (sc.cursor.doc_id s ≡ d)
  going-cons s v on =
      let (d, ds, at) =
        nonempty-cons (pending s)
          (not-false (is_nonempty (pending s)) (sym (ic.is_end_is s v) ∙ on)) in
      (d, ds, at, ic.doc_id_is s v ∙ ap head_or_invalid at ∙ unfold head_or_invalid in refl)

  -- Past its current document a child has fewer left.
  pub advance-left_lt :
      (t : ℕ) (s : S)
      → IsValid s
      → sc.cursor.is_end s ≡ false
      → sc.cursor.doc_id s < t
      → left (sc.cursor.advance t s).1 < left s
  advance-left_lt t s v on low =
      let (d, ds, at, here) = going-cons s v on in
      let after : pending (sc.cursor.advance t s).1 ≡ drop_below t ds =
        ic.advance_moves s t v
        ∙ ap (drop_below t) at
        ∙ drop_below_behind t d ds (omega (arith, here, low)) in
      omega (arith, ap length after, ap length at, length-drop_below t ds)

  pub valid-All : (floor : ℕ) (cs : List S) → All (IsGood floor) cs → All IsValid cs
  valid-All floor [] g = tt
  valid-All floor (s ∷ ss) g = (g.0.valid, valid-All floor ss g.1)

  pub catch_up-IsGood : (floor p : ℕ) (s : S) → IsGood floor s → IsGood floor (catch_up sc p s)
  catch_up-IsGood floor p s g =
      elim (Bool-cases (not (sc.cursor.is_end s) && ltb (sc.cursor.doc_id s) p)) [
        | inl moves ↦ rw moves (advance-IsGood floor p s g)
        | inr stays ↦ rw stays g
      ]

  catch_up-left : (p : ℕ) (s : S) → IsValid s → left (catch_up sc p s) ≤ left s
  catch_up-left p s v = elim (Bool-cases (not (sc.cursor.is_end s) && ltb (sc.cursor.doc_id s) p)) [
    | inl moves ↦ rw moves (advance-left p s v)
    | inr stays ↦ rw stays (omega arith)
  ]

  pub past_block-IsGood : (floor : ℕ) (s : S) → IsGood floor s → IsGood floor (past_block sc s)
  past_block-IsGood floor s g =
      let e = sc.block_max_doc_id s in
      elim (Bool-cases (not (e == invalid_doc))) [
        | inl moves ↦ rw moves (advance-IsGood floor (e + 1) s g)
        | inr stays ↦ rw stays g
      ]

  -- A child that goes past a block with its current document has fewer left.
  pub past_block-left_lt :
      (s : S)
      → IsValid s
      → sc.cursor.is_end s ≡ false
      → sc.cursor.doc_id s ≤ sc.block_max_doc_id s
      → sc.block_max_doc_id s < invalid_doc
      → left (past_block sc s) < left s
  past_block-left_lt s v on le lt =
      let inside : (sc.block_max_doc_id s == invalid_doc) ≡ false = ground (arith, lt) in
      rw inside (advance-left_lt (sc.block_max_doc_id s + 1) s v on (omega (arith, le)))

  past_block-left : (s : S) → IsValid s → left (past_block sc s) ≤ left s
  past_block-left s v =
      let e = sc.block_max_doc_id s in
      elim (Bool-cases (not (e == invalid_doc))) [
        | inl moves ↦ rw moves (advance-left (e + 1) s v)
        | inr stays ↦ rw stays (omega arith)
      ]

  -- The children that are at the pivot or past it are past it afterwards.
  past_pivot-IsGood :
      (floor p : ℕ) (s : S)
      → IsGood floor s
      → p ≤ sc.cursor.doc_id s
      → IsGood (p + 1) (past_pivot sc p s)
  past_pivot-IsGood floor p s g le =
      let e = ic.advance_moves s (p + 1) g.valid in
      let asc = ic.ascending s g.valid in
      let head = ic.doc_id_is s g.valid in
      elim (Bool-cases (sc.cursor.is_end s)) [
        | inl over ↦
            let none : pending s ≡ [] =
              empty-nil (pending s)
                (not-true (is_nonempty (pending s)) (sym (ic.is_end_is s g.valid) ∙ over)) in
            rw over (record {
              valid = g.valid;
              above = subst (All (λ d. p + 1 ≤ d)) (sym none) tt;
              among = g.among;
            })
        | inr on ↦ elim (Bool-cases (sc.cursor.doc_id s == p)) [
          | inl at ↦
              rw (on, at)
                (record {
                  valid = ic.advance_valid s (p + 1) g.valid;
                  above = rw e (drop_below-ge (p + 1) (pending s) asc);
                  among = (advance-IsGood floor (p + 1) s g).among;
                })
          | inr other ↦
              let low : p + 1 ≤ head_or_invalid (pending s) = ground (arith, le, other, head) in
              rw (on, other)
                (record {
                  valid = g.valid;
                  above = none_before (p + 1) (pending s) asc low;
                  among = g.among;
                })
        ]
      ]

  past_pivot-left : (p : ℕ) (s : S) → IsValid s → left (past_pivot sc p s) ≤ left s
  past_pivot-left p s v =
      elim (Bool-cases (not (sc.cursor.is_end s) && (sc.cursor.doc_id s == p))) [
        | inl moves ↦ rw moves (advance-left (p + 1) s v)
        | inr stays ↦ rw stays (omega arith)
      ]

  abbrev pub AllGood : ℕ → List S → Type 0
  AllGood floor = All (IsGood floor)

  pub align-AllGood :
      (floor i p : ℕ) (cs : List S)
      → AllGood floor cs
      → AllGood floor (align_lagging_cursors sc i p cs)
        × (total left (align_lagging_cursors sc i p cs) ≤ total left cs)
  unfolding align_lagging_cursors total
  align-AllGood floor i p [] g = (tt, omega arith)
  align-AllGood floor zero p (s ∷ ss) g = (g, omega arith)
  align-AllGood floor (suc i) p (s ∷ ss) g =
      let (gs, le) = align-AllGood floor i p ss g.1 in
      ((catch_up-IsGood floor p s g.0, gs), omega (arith, le, catch_up-left p s g.0.valid))

  pub skip_block-AllGood :
      (floor : ℕ) (cs : List S)
      → AllGood floor cs
      → AllGood floor (skip_block sc cs) × (total left (skip_block sc cs) ≤ total left cs)
  unfolding skip_block total
  skip_block-AllGood floor [] g = (tt, omega arith)
  skip_block-AllGood floor (s ∷ ss) g =
      let (gs, le) = skip_block-AllGood floor ss g.1 in
      ((past_block-IsGood floor s g.0, gs), omega (arith, le, past_block-left s g.0.valid))

  pub move_past-AllGood :
      (floor p : ℕ) (cs : List S)
      → AllGood floor cs
      → All (λ s. p ≤ sc.cursor.doc_id s) cs
      → AllGood (p + 1) (move_past sc p cs) × (total left (move_past sc p cs) ≤ total left cs)
  unfolding move_past total
  move_past-AllGood floor p [] g low = (tt, omega arith)
  move_past-AllGood floor p (s ∷ ss) g low =
      let (gs, le) = move_past-AllGood floor p ss g.1 low.1 in
      (
        (past_pivot-IsGood floor p s g.0 low.0, gs),
        omega (arith, le, past_pivot-left p s g.0.valid),
      )
