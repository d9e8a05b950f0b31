-- ===== src/Query/Wand/Documents.antt =====
-- The documents that the children have ahead, as a round changes them.
use piggy_engine.Prelude.{
  ℕ, ◌+◌, ◌<◌, List, [], ◌∷◌, map, Bool, true, false, ◌||◌, ◌≡◌, refl, sym, ap, subst, ◌∙◌, inl,
  inr, arith,
}
use piggy_engine.Prelude.{All, if◌then◌else◌, ◌==◌, ==_iff, Bool-cases}
use piggy_engine.Query.Docs.{IsAscending, is_nonempty, mem, in_any, drop_below}
use piggy_engine.Query.Docs.Laws.{drop_below_suc}
use piggy_engine.Query.Docs.Cases.{empty-nil, not-true}
use piggy_engine.Query.Cursor.{Scorer, IsCursor}
use piggy_engine.Query.Wand.{Library, drop_ended, unless_last_ended, past_pivot, move_past}
use piggy_engine.Query.Wand.Moves.{total, going-cons}
use piggy_engine.Query.Wand.Heap.{IsLibrary}

split_mem :
    (d p e : ℕ) (es : List ℕ) → p ≡ e → mem d (e ∷ es) ≡ true → (mem d es || (d == p)) ≡ true
unfolding mem
split_mem d p e es same h = ground (arith, h, same)

module _ {F S : Type 0} (sc : Scorer F S) (lib : Library F S) {IsValid : S → Type 0}
    {pending : S → List ℕ} (ic : IsCursor sc.cursor IsValid pending) (is_lib : IsLibrary sc lib)
    (known : ℕ → Bool) where
  abbrev pub in_children : ℕ → List S → Bool
  in_children d cs = in_any d (map pending cs)

  -- A child that is moved past the pivot loses no other document.
  past_pivot-mem :
      (d p : ℕ) (s : S)
      → IsValid s
      → mem d (pending s) ≡ true
      → (mem d (pending (past_pivot sc p s)) || (d == p)) ≡ true
  past_pivot-mem d p s v here = elim (Bool-cases (sc.cursor.is_end s)) [
    | inl over ↦ rw over (rw here refl)
    | inr on ↦ elim (Bool-cases (sc.cursor.doc_id s == p)) [
      | inr other ↦ rw (on, other) (rw here refl)
      | inl at ↦
          let (e, es, cons, doc) = going-cons sc ic known s v on in
          let asc : IsAscending (e ∷ es) = subst IsAscending cons (ic.ascending s v) in
          let same : p ≡ e = sym ((==_iff (sc.cursor.doc_id s) p).0 at) ∙ doc in
          let after : pending (sc.cursor.advance (p + 1) s).1 ≡ es =
            ic.advance_moves s (p + 1) v
            ∙ ap (drop_below (p + 1)) cons
            ∙ rw same (drop_below_suc e es asc.1) in
          rw (on, at, after) (split_mem d p e es same (rw cons at here))
    ]
  ]

  pub move_past-in_children :
      (d p : ℕ) (cs : List S)
      → All IsValid cs
      → in_children d cs ≡ true
      → (in_children d (move_past sc p cs) || (d == p)) ≡ true
  unfolding move_past in_any
  move_past-in_children d p [] v here = cc
  move_past-in_children d p (s ∷ ss) v here = elim (Bool-cases (mem d (pending s))) [
    | inl first ↦ ground (arith, past_pivot-mem d p s v.0 first)
    | inr behind ↦ ground (arith, move_past-in_children d p ss v.1 (rw behind at here))
  ]

  abbrev has_doc : ℕ → S → ℕ
  has_doc d s = if mem d (pending s) then 1 else 0

  total-in_children : (d : ℕ) (cs : List S) → in_children d cs ≡ true → 0 < total (has_doc d) cs
  unfolding total in_any
  total-in_children d [] h = cc
  total-in_children d (s ∷ ss) h = elim (Bool-cases (mem d (pending s))) [
    | inl first ↦ rw first (omega arith)
    | inr behind ↦ rw behind (omega (arith, total-in_children d ss (rw behind at h)))
  ]

  in_children-total : (d : ℕ) (cs : List S) → 0 < total (has_doc d) cs → in_children d cs ≡ true
  unfolding total in_any
  in_children-total d [] h = absurd (omega arith)
  in_children-total d (s ∷ ss) h = elim (Bool-cases (mem d (pending s))) [
    | inl first ↦ rw first refl
    | inr behind ↦ rw behind (in_children-total d ss (omega (arith, rw behind at h)))
  ]

  -- An ended child has no document.
  total-drop_ended :
      (d : ℕ) (cs : List S)
      → All IsValid cs
      → total (has_doc d) (drop_ended sc cs) ≡ total (has_doc d) cs
  unfolding drop_ended total
  total-drop_ended d [] v = refl
  total-drop_ended d (s ∷ ss) v =
      omega (arith, total_one d s (drop_ended sc ss) v.0, total-drop_ended d ss v.1)
    where
      total_one :
          (d : ℕ) (s : S) (rest : List S)
          → IsValid s
          → total (has_doc d) (unless_last_ended sc s rest) ≡ has_doc d s + total (has_doc d) rest
      total_one d s (t ∷ ts) v = refl
      total_one d s [] v = elim (Bool-cases (sc.cursor.is_end s)) [
        | inr on ↦ rw on refl
        | inl over ↦
            let none : pending s ≡ [] =
              empty-nil (pending s)
                (not-true (is_nonempty (pending s)) (sym (ic.is_end_is s v) ∙ over)) in
            let absent : mem d (pending s) ≡ false = ap (mem d) none ∙ unfold mem in refl in
            rw (over, absent) refl
      ]

  -- The children of a round have the documents that there were.
  pub round-in_children :
      (d : ℕ) (cs : List S)
      → All IsValid cs
      → in_children d cs ≡ true
      → in_children d (drop_ended sc (lib.sort cs)) ≡ true
  round-in_children d cs v here = in_children-total d (drop_ended sc (lib.sort cs)) (
      omega (
        arith,
        total-drop_ended d (lib.sort cs) (is_lib.sort_all IsValid cs v),
        is_lib.sort_total (has_doc d) cs,
        total-in_children d cs here,
      ))
