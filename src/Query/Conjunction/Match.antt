-- ===== src/Query/Conjunction/Match.antt =====
-- One round of the zigzag: what the inner loop of `doNext` finds.
use piggy_engine.Prelude.{
  ℕ, ◌≤◌, ◌<◌, List, [], ◌∷◌, ◌++◌, map, Bool, true, false, ◌&&◌, ◌≡◌, refl, ap, sym, ◌∙◌, arith,
}
use piggy_engine.Prelude.{◌==◌, ==_iff, All, Bool-cases, inl, inr, length, append_assoc, append-nil}
use piggy_engine.Query.Docs.{
  IsAscending, mem, keep, drop_below, head_or_invalid, is_nonempty, in_all,
}
use piggy_engine.Query.Docs.Laws.{
  drop_below-ge, mem_below, mem-drop_below, keep_congr, keep_none, keep-drop_below, All-head,
  All-lt, drop_below_behind,
}
use piggy_engine.Query.Docs.Cases.{nonempty-cons, empty-nil}
use piggy_engine.Query.Cursor.{Cursor, IsCursor}
use piggy_engine.Query.Conjunction.{Round, matched, moved, exhausted, chase, match_loop}

length-drop_below-le : (t : ℕ) (ds : List ℕ) → length (drop_below t ds) ≤ length ds
unfolding drop_below
length-drop_below-le t [] = omega arith
length-drop_below-le t (d ∷ ds) = ground (arith, length-drop_below-le t ds)

mem_head : (d : ℕ) (ds : List ℕ) → mem d (d ∷ ds) ≡ true
unfolding mem
mem_head d ds = ground arith

mem_before : (d e : ℕ) (es : List ℕ) → d < e → IsAscending (e ∷ es) → mem d (e ∷ es) ≡ false
mem_before d e es lt h = mem_below d (e ∷ es) (lt, All-lt d e es (omega arith) h.1)

module _ {S : Type 0} {c : Cursor S} {IsValid : S → Type 0} {pending : S → List ℕ}
    (ic : IsCursor c IsValid pending) where
  -- `d` is still to come in each of the cursors
  unfoldable pub holds : ℕ → List S → Bool
  holds d ss = in_all d (map pending ss)

  -- the documents of the lead that all the others have too
  unfoldable pub common : S → List S → List ℕ
  common lead rest = keep (λ d. holds d rest) (pending lead)

  pub holds-append : (d : ℕ) (xs ys : List S) → holds d (xs ++ ys) ≡ (holds d xs && holds d ys)
  unfolding holds in_all
  holds-append d [] ys = refl
  holds-append d (x ∷ xs) ys = ground (arith, holds-append d xs ys)

  pub holds-cons :
      (d : ℕ) (x : S) (xs : List S) → holds d (x ∷ xs) ≡ (mem d (pending x) && holds d xs)
  unfolding holds in_all
  holds-cons d x xs = refl

  pub holds_nil : (d : ℕ) → holds d [] ≡ true
  unfolding holds in_all
  holds_nil d = refl

  All-append : (xs ys : List S) → All IsValid xs → All IsValid ys → All IsValid (xs ++ ys)
  All-append [] ys h k = k
  All-append (x ∷ xs) ys h k = (h.0, All-append xs ys h.1 k)

  -- Advancing a child to the target changes nothing at or after it.
  holds-advance :
      (d t : ℕ) (done ss : List S) (s : S)
      → IsValid s
      → t ≤ d
      → holds d (done ++ (c.advance t s).1 ∷ ss) ≡ holds d (done ++ s ∷ ss)
  holds-advance d t done ss s v le =
      let s' = (c.advance t s).1 in
      let same : mem d (pending s') ≡ mem d (pending s) =
        ap (mem d) (ic.advance_moves s t v) ∙ mem-drop_below d t (pending s) le in
      ground (
        arith,
        same,
        holds-append d done (s' ∷ ss),
        holds-append d done (s ∷ ss),
        holds-cons d s' ss,
        holds-cons d s ss,
      )

  -- A child without `d` is enough.
  holds_without :
      (d : ℕ) (done ss : List S) (s : S)
      → mem d (pending s) ≡ false
      → holds d (done ++ s ∷ ss) ≡ false
  holds_without d done ss s h = ground (arith, h, holds-append d done (s ∷ ss), holds-cons d s ss)

  -- What a round promises of the children `rest` it began with.
  unfoldable pub Outcome : ℕ → S → List S → Round S → Type 0
  Outcome target lead rest (matched l ss) =
      (l ≡ lead) × All IsValid ss × (holds target ss ≡ true) × (common l ss ≡ common lead rest)
  Outcome target lead rest (moved l ss) =
      IsValid l
      × All IsValid ss
      × (common l ss ≡ common lead rest)
      × (length (pending l) < length (pending lead))
  Outcome target lead rest (exhausted l ss) =
      IsValid l × All IsValid ss × (common l ss ≡ []) × (common lead rest ≡ [])

  module _ (target : ℕ) (lead : S) (ls : List ℕ) (v : IsValid lead)
      (at : pending lead ≡ target ∷ ls) where
    lead_ge : All (λ d. target ≤ d) (pending lead)
    lead_ge = rw at (All-head target ls (rw at at (ic.ascending lead v)))

    -- The children `ss` stand for the children `rest`.
    abbrev Same : List S → List S → Type 0
    Same rest ss = (d : ℕ) → target ≤ d → holds d ss ≡ holds d rest

    common-Same : (rest ss : List S) → Same rest ss → common lead ss ≡ common lead rest
    unfolding common
    common-Same rest ss same =
        keep_congr (λ d. holds d ss) (λ d. holds d rest) target (pending lead) lead_ge same

    common_none : (ss : List S) → ((d : ℕ) → holds d ss ≡ false) → common lead ss ≡ []
    unfolding common
    common_none ss none = keep_none (λ d. holds d ss) target (pending lead) lead_ge (λ d _. none d)

    chase-Outcome :
        (doc : ℕ) (rest ss : List S)
        → target < doc
        → All IsValid ss
        → Same rest ss
        → ((d : ℕ) → d < doc → holds d ss ≡ false)
        → Outcome target lead rest (chase c doc lead ss)
    unfolding chase Outcome
    chase-Outcome doc rest ss past valid same skipped =
        let r = c.advance doc lead in
        let lead' = r.1 in
        let kept : common lead' ss ≡ common lead rest =
          unfold common in
          ap (keep (λ d. holds d ss)) (ic.advance_moves lead doc v)
          ∙ keep-drop_below (λ d. holds d ss) doc (pending lead) skipped
          ∙ common-Same rest ss same in
        elim (Bool-cases r.0) [
          | inl more ↦ rw more (
            ic.advance_valid lead doc v,
            valid,
            kept,
            omega (
              arith,
              ap length (
                  ic.advance_moves lead doc v
                  ∙ ap (drop_below doc) at
                  ∙ drop_below_behind doc target ls past),
              length-drop_below-le doc ls,
              ap length at,
            ),
          )
          | inr over ↦
              let none : pending lead' ≡ [] =
                ic.advance_moves lead doc v
                ∙ empty-nil _ (sym (ic.advance_returns lead doc v) ∙ over) in
              let nothing : common lead' ss ≡ [] = unfold common keep in rw none in
              rw over (ic.advance_valid lead doc v, valid, nothing, sym kept ∙ nothing)
        ]

    holds_met :
        (done : List S) (s : S) (es : List ℕ)
        → holds target done ≡ true
        → pending s ≡ target ∷ es
        → holds target (done ++ s ∷ []) ≡ true
    holds_met done s es here e =
        let has : mem target (pending s) ≡ true = ap (mem target) e ∙ mem_head target es in
        ground (
          arith,
          has,
          here,
          holds-append target done (s ∷ []),
          holds-cons target s [],
          holds_nil target,
        )

    past_target :
        (s s' : S) (e : ℕ) (es : List ℕ)
        → pending s' ≡ e ∷ es
        → pending s' ≡ drop_below target (pending s)
        → IsValid s
        → c.doc_id s' ≡ e
        → (c.doc_id s' == target) ≡ false
        → target < c.doc_id s'
    past_target s s' e es front moved_to vs doc miss =
        let ge : All (λ d. target ≤ d) (e ∷ es) =
          rw (sym moved_to ∙ front) at (drop_below-ge target (pending s) (ic.ascending s vs)) in
        ground (arith, ge.0)

    -- The inner loop, with `done` at the target already.
    pub match_loop-Outcome :
        (rest done ss : List S)
        → All IsValid done
        → All IsValid ss
        → Same rest (done ++ ss)
        → holds target done ≡ true
        → Outcome target lead rest (match_loop c target lead done ss)
    unfolding match_loop Outcome
    match_loop-Outcome rest done [] vd vs same here = (
      refl,
      vd,
      here,
      common-Same rest done (λ d le. ap (holds d) (sym (append-nil done)) ∙ same d le),
    )
    match_loop-Outcome rest done (s ∷ ss) vd vs same here =
        let r = c.advance target s in
        let s' = r.1 in
        let v' = ic.advance_valid s target vs.0 in
        let all : All IsValid (done ++ s' ∷ ss) = All-append done (s' ∷ ss) vd (v', vs.1) in
        let same' : Same rest (done ++ s' ∷ ss) =
          λ d le. holds-advance d target done ss s vs.0 le ∙ same d le in
        let shown : is_nonempty (pending s') ≡ r.0 =
          ap is_nonempty (ic.advance_moves s target vs.0)
          ∙ sym (ic.advance_returns s target vs.0) in
        elim (Bool-cases r.0) [
          | inl ok ↦
              let (e, es, front) = nonempty-cons (pending s') (shown ∙ ok) in
              let doc : c.doc_id s' ≡ e =
                ic.doc_id_is s' v' ∙ ap head_or_invalid front ∙ unfold head_or_invalid in refl in
              elim (Bool-cases (c.doc_id s' == target)) [
                | inl hit ↦
                    let met : e ≡ target = sym doc ∙ (==_iff (c.doc_id s') target).0 hit in
                    rw (ok, hit)
                      (match_loop-Outcome rest (done ++ s' ∷ []) ss
                        (All-append done (s' ∷ []) vd (v', tt)) vs.1
                        (λ d le. ap (holds d) (append_assoc done (s' ∷ []) ss) ∙ same' d le)
                        (holds_met done s' es here (front ∙ ap (λ (t : ℕ). t ∷ es) met)))
                | inr miss ↦
                    rw (ok, miss)
                      (chase-Outcome (c.doc_id s') rest (done ++ s' ∷ ss)
                        (past_target s s' e es front (ic.advance_moves s target vs.0) vs.0 doc miss)
                        all same'
                        (λ d lt. holds_without d done ss s' (
                          ap (mem d) front
                          ∙ mem_before d e es (omega arith) (rw front at (ic.ascending s' v')))))
              ]
          | inr over ↦
              let gone : pending s' ≡ [] = empty-nil (pending s') (shown ∙ over) in
              let nothing : (d : ℕ) → holds d (done ++ s' ∷ ss) ≡ false =
                λ d. holds_without d done ss s' (ap (mem d) gone ∙ unfold mem in refl) in
              let none = common_none (done ++ s' ∷ ss) nothing in
              rw over (v, all, none, sym (common-Same rest (done ++ s' ∷ ss) same') ∙ none)
        ]
