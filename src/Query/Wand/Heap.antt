-- ===== src/Query/Wand/Heap.antt =====
-- The heap holds the best hits so far, at most `top_k`, and no document twice.
use piggy_engine.Prelude.{
  ℕ, ◌+◌, ◌≤◌, ◌<◌, List, [], ◌∷◌, Bool, true, not, ◌&&◌, ◌||◌, ◌≡◌, inl, inr, arith,
}
use piggy_engine.Prelude.{length, All, ltb, ◌==◌, ==_iff, Bool-cases}
use piggy_engine.Prelude.Counts.{count, count_mono, count-all}
use piggy_engine.Core.{invalid_doc}
use piggy_engine.Query.Cursor.{Scorer}
use piggy_engine.Query.Floats.{Float32}
use piggy_engine.Query.Wand.Moves.{total}
use piggy_engine.Query.Wand.Iteration.{Hit}
use piggy_engine.Query.Wand.{Run, Library, push, offer}

-- What `std::sort` and `std::priority_queue` promise: the first child has the least document, and
-- the children stay the same; `pop` takes the top out and leaves the others.
pub record IsLibrary {F S : Type 0} (sc : Scorer F S) (lib : Library F S) : Type 1 where
  pub first_least :
      (cs ss : List S) (s : S)
      → lib.sort cs ≡ s ∷ ss
      → All (λ t. sc.cursor.doc_id s ≤ sc.cursor.doc_id t) ss
  pub sort_all : (P : S → Type 0) (cs : List S) → All P cs → All P (lib.sort cs)
  pub sort_total : (f : S → ℕ) (cs : List S) → total f (lib.sort cs) ≡ total f cs
  pub top_count :
      (q : Hit F → Bool) (e : Hit F) (es : List (Hit F))
      → let t = lib.take_top e es in count q (t.0 ∷ t.1) ≡ count q (e ∷ es)

module _ {F S : Type 0} (fl : Float32 F) (sc : Scorer F S) (lib : Library F S)
    (is_lib : IsLibrary sc lib) (known accepts : ℕ → Bool) (top_k : ℕ) where
  -- a hit may be in the heap when all that is left starts at `floor`
  unfoldable pub is_fit : ℕ → Hit F → Bool
  is_fit floor h =
      accepts h.doc_id && (known h.doc_id && (ltb h.doc_id floor && ltb h.doc_id invalid_doc))

  is_fit_mono : (a b : ℕ) (h : Hit F) → a ≤ b → not (is_fit b h) ≡ true → not (is_fit a h) ≡ true
  unfolding is_fit
  is_fit_mono a b h le e = ground (arith, le, e)

  not_fit : (floor : ℕ) (h : Hit F) → floor ≤ h.doc_id → not (is_fit floor h) ≡ true
  unfolding is_fit
  not_fit floor h le = ground (arith, le)

  pub record IsHeap (floor : ℕ) (heap : List (Hit F)) : Type 0 where
    pub fit : count (λ h. not (is_fit floor h)) heap ≡ 0
    pub once : (d : ℕ) → count (λ h. h.doc_id == d) heap ≤ 1
    pub small : length heap ≤ top_k

  pub IsHeap-mono : (a b : ℕ) (heap : List (Hit F)) → a ≤ b → IsHeap a heap → IsHeap b heap
  IsHeap-mono a b heap le v = record {
    fit = omega (
      arith,
      v.fit,
      count_mono (λ h. not (is_fit b h)) (λ h. not (is_fit a h)) (λ h e. is_fit_mono a b h le e)
          heap,
    );
    once = v.once;
    small = v.small;
  }

  pub length-pop : (e : Hit F) (es : List (Hit F)) → length (lib.take_top e es).1 ≡ length es
  unfolding count
  length-pop e es =
      let t = lib.take_top e es in
      omega (arith, is_lib.top_count (λ h. true) e es, count-all t.1, count-all es)

  pop-IsHeap :
      (floor : ℕ) (e : Hit F) (es : List (Hit F))
      → IsHeap floor (e ∷ es)
      → let rest = (lib.take_top e es).1 in IsHeap floor rest × (length rest ≡ length es)
  unfolding count
  pop-IsHeap floor e es v =
      let t = lib.take_top e es in
      let size = length-pop e es in
      (
        record {
          fit = omega (arith, is_lib.top_count (λ h. not (is_fit floor h)) e es, v.fit);
          once = λ d. omega (arith, is_lib.top_count (λ h. h.doc_id == d) e es, v.once d);
          small = omega (arith, size, v.small);
        },
        size,
      )

  -- A hit behind all others takes a free place.
  add-IsHeap :
      (floor : ℕ) (h : Hit F) (kept : List (Hit F))
      → IsHeap floor kept
      → length kept < top_k
      → is_fit (h.doc_id + 1) h ≡ true
      → floor ≤ h.doc_id
      → IsHeap (h.doc_id + 1) (h ∷ kept)
  unfolding count
  add-IsHeap floor h kept v room good low =
      let wider = IsHeap-mono floor (h.doc_id + 1) kept (omega arith) v in
      record {
        fit = rw good (omega (arith, wider.fit));
        once = λ d. elim (Bool-cases (h.doc_id == d)) [
          | inl same ↦
              let absent =
                count_mono (λ k. k.doc_id == d) (λ k. not (is_fit floor k))
                  (λ k e.
                    not_fit floor k
                      (omega (arith, low, (==_iff h.doc_id d).0 same, (==_iff k.doc_id d).0 e)))
                  kept in
              rw same (omega (arith, absent, v.fit))
          | inr other ↦ rw other (omega (arith, v.once d))
        ];
        small = omega (arith, room);
      }

  pub offer-IsHeap :
      (floor : ℕ) (h : Hit F) (heap : List (Hit F)) (st : Run F S)
      → st.heap ≡ heap
      → IsHeap floor heap
      → is_fit (h.doc_id + 1) h ≡ true
      → floor ≤ h.doc_id
      → IsHeap (h.doc_id + 1) (offer fl sc lib accepts top_k h heap st).heap
  unfolding offer push
  offer-IsHeap floor h [] st at v good low = elim (Bool-cases (ltb 0 top_k)) [
    | inl room ↦ rw room (add-IsHeap floor h [] v (ground (arith, room)) good low)
    | inr none ↦ rw (none, at) (IsHeap-mono floor (h.doc_id + 1) [] (omega (arith, low)) v)
  ]
  offer-IsHeap floor h (e ∷ es) st at v good low =
      let t = lib.take_top e es in
      let size = length (e ∷ es) in
      let (popped, fewer) = pop-IsHeap floor e es v in
      elim (Bool-cases (ltb size top_k || fl.lt_f t.0.score h.score)) [
        | inr refused ↦
            rw (refused, at) (IsHeap-mono floor (h.doc_id + 1) (e ∷ es) (omega (arith, low)) v)
        | inl taken ↦ elim (Bool-cases (size == top_k)) [
          | inl full ↦
              rw (taken, full)
                (add-IsHeap floor h t.1 popped (ground (arith, full, fewer)) good low)
          | inr room ↦
              rw (taken, room)
                (add-IsHeap floor h (e ∷ es) v (ground (arith, room, v.small)) good low)
        ]
      ]
